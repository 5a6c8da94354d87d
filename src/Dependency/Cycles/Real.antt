-- ===== src/Dependency/Cycles/Real.antt =====
-- Every cycle that is reported is one (internal/dependency/dependency.go, detectCycles).
use workbuddy.Prelude.{
  ℕ, zero, suc, String, ◌≡◌, refl, subst, sym, ◌∙◌, ◌⊎◌, inl, inr, List, [], ◌∷◌, ◌++◌, some, ◌==◌,
  ==_iff, Bool-cases, length, arith, lookup, insert, lookup-insert, nat_eq,
}
use workbuddy.Dependency.Cycles.{
  Color, white, gray, black, Graph, color_of, Search, next_of, color_in, extract_cycle_path,
  format_cycle, report, enter, leave, close_cycle, meet, each_next, visit, sort_ints, keys,
  visit_white, visit_keys, fresh_search, detect_cycles,
}
use workbuddy.Dependency.Cycles.Steps.{color_in-enter, color_in-leave}
use workbuddy.Dependency.Cycles.Walks.{
  Mem, IsWalk, IsCycle, Mem-append_left, Mem-append_last, Mem-last, drop_last-append, IsWalk-append,
  extract_cycle_path-IsCycle,
}

-- The texts of a cycle of the graph that the node is on.
abbrev pub IsReport : Graph → ℕ → List String → Type 0
IsReport g n texts = (p : List ℕ) × (texts ≡ format_cycle p) × IsCycle g p × Mem n p

-- The stack is a walk, the grey nodes are on it, and what is reported is real.
abbrev pub IsSound : Graph → Search → Type 0
IsSound g s =
    IsWalk g s.stack
    × ((n : ℕ) → color_in n s ≡ gray → Mem n s.stack)
    × ((n : ℕ) (p : List String) → lookup n s.out ≡ some p → IsReport g n p)

lookup-report :
    (n : ℕ) (p texts : List String) (ns : List ℕ) (out : List (ℕ × List String))
    → lookup n (report texts ns out) ≡ some p
    → (Mem n ns × (p ≡ texts)) ⊎ (lookup n out ≡ some p)
unfolding report
lookup-report n p texts [] out h = inr h
lookup-report n p texts (m ∷ ns) out h = elim (lookup-report n p texts ns (insert m texts out) h) [
  | inl (k, e) ↦ inl (inr k, e)
  | inr k ↦ elim (Bool-cases (m == n)) [
    | inl e ↦ inl (inl ((==_iff m n).0 e), ground (arith, lookup-insert m n texts out, k, e))
    | inr e ↦ inr (ground (arith, lookup-insert m n texts out, k, e))
  ]
]

abbrev Restores : (ℕ → Search → Search) → Type 0
Restores go = (n : ℕ) (s : Search) → (go n s).stack ≡ s.stack

meet-stack :
    (go : ℕ → Search → Search)
    → Restores go
    → (n : ℕ) (c : Color) (s : Search) → (meet go n c s).stack ≡ s.stack
unfolding meet close_cycle
meet-stack go r n white s = r n s
meet-stack go r n gray s = refl
meet-stack go r n black s = refl

each_next-stack :
    (go : ℕ → Search → Search)
    → Restores go
    → (ns : List ℕ) (s : Search) → (each_next go ns s).stack ≡ s.stack
unfolding each_next
each_next-stack go r [] s = refl
each_next-stack go r (n ∷ ns) s =
    each_next-stack go r ns (meet go n (color_in n s) s) ∙ meet-stack go r n (color_in n s) s

visit-stack : (fuel : ℕ) (g : Graph) → Restores (visit fuel g)
unfolding visit leave enter
visit-stack zero g n s = refl
visit-stack (suc fuel) g n s =
    rw (each_next-stack (visit fuel g) (visit-stack fuel g) (next_of g n) (enter n s), enter)
      (drop_last-append n s.stack)

close_cycle-IsSound :
    (g : Graph) (t : ℕ) (s : Search)
    → IsWalk g (s.stack ++ t ∷ [])
    → Mem t s.stack
    → IsSound g s
    → IsSound g (close_cycle t s)
unfolding close_cycle color_in color_of
close_cycle-IsSound g t s w h (w', grays, reports) = (
  w',
  grays,
  λ n p k.
      let path = extract_cycle_path s.stack t in
      elim (lookup-report n p (format_cycle path) path s.out k) [
        | inl (m, e) ↦ (path, e, extract_cycle_path-IsCycle g s.stack t w h, m)
        | inr q ↦ reports n p q
      ],
)

enter-IsSound :
    (g : Graph) (n : ℕ) (s : Search)
    → IsWalk g (s.stack ++ n ∷ [])
    → IsSound g s
    → IsSound g (enter n s)
enter-IsSound g n s w (_, grays, reports) =
    unfold enter in
    (
      w,
      λ m h. elim (Bool-cases (n == m)) [
        | inl e ↦ subst (λ k. Mem k (s.stack ++ n ∷ [])) ((==_iff n m).0 e) (Mem-last n s.stack)
        | inr e ↦
            Mem-append_left m s.stack (n ∷ [])
              (grays m (ground (arith, color_in-enter m n s, h, e)))
      ],
      reports,
    )

leave-IsSound :
    (g : Graph) (n : ℕ) (stack : List ℕ) (s : Search)
    → IsWalk g stack
    → s.stack ≡ stack ++ n ∷ []
    → IsSound g s
    → IsSound g (leave n s)
leave-IsSound g n stack s w e (_, grays, reports) =
    let back : (leave n s).stack ≡ stack = unfold leave in (rw e (drop_last-append n stack)) in
    (
      subst (IsWalk g) (sym back) w,
      λ m h. subst (Mem m) (sym back) (elim (Bool-cases (n == m)) [
        | inl q ↦ absurd (ground (arith, color_in-leave m n s, h, q))
        | inr q ↦
            elim (Mem-append_last m n stack
              (subst (Mem m) e (grays m (ground (arith, color_in-leave m n s, h, q))))) [
                | inl k ↦ k
                | inr k ↦ absurd (ground (arith, k, q))
              ]
      ]),
      unfold leave in reports,
    )

abbrev Keeps : Graph → (ℕ → Search → Search) → Type 0
Keeps g go = (n : ℕ) (s : Search) → IsWalk g (s.stack ++ n ∷ []) → IsSound g s → IsSound g (go n s)

meet-IsSound :
    (g : Graph) (go : ℕ → Search → Search)
    → Keeps g go
    → (n : ℕ) (c : Color) (s : Search) → color_in n s ≡ c
    → IsWalk g (s.stack ++ n ∷ [])
    → IsSound g s
    → IsSound g (meet go n c s)
unfolding meet
meet-IsSound g go keeps n white s e w i = keeps n s w i
meet-IsSound g go keeps n gray s e w i = close_cycle-IsSound g n s w (i.1 n e) i
meet-IsSound g go keeps n black s e w i = i

each_next-IsSound :
    (g : Graph) (go : ℕ → Search → Search)
    → Restores go
    → Keeps g go
    → (stack : List ℕ) (ns : List ℕ) (s : Search) → s.stack ≡ stack
    → ((n : ℕ) → Mem n ns → IsWalk g (stack ++ n ∷ []))
    → IsSound g s
    → IsSound g (each_next go ns s)
unfolding each_next
each_next-IsSound g go r keeps stack [] s e w i = i
each_next-IsSound g go r keeps stack (n ∷ ns) s e w i =
    each_next-IsSound g go r keeps stack ns (meet go n (color_in n s) s)
      (meet-stack go r n (color_in n s) s ∙ e) (λ m h. w m (inr h))
      (meet-IsSound g go keeps n (color_in n s) s refl
        (subst (λ t. IsWalk g (t ++ n ∷ [])) (sym e) (w n (inl refl))) i)

visit-IsSound : (fuel : ℕ) (g : Graph) → Keeps g (visit fuel g)
unfolding visit
visit-IsSound zero g n s w i = i
visit-IsSound (suc fuel) g n s w i =
    let s' = enter n s in
    leave-IsSound g n s.stack _ i.0
      (each_next-stack (visit fuel g) (visit-stack fuel g) (next_of g n) s'
        ∙ (unfold enter in refl))
      (each_next-IsSound g (visit fuel g) (visit-stack fuel g) (visit-IsSound fuel g)
        (s.stack ++ n ∷ []) (next_of g n) s' (unfold enter in refl)
        (λ m h. IsWalk-append g n m s.stack w h) (enter-IsSound g n s w i))

pub visit_white-IsSound :
    (fuel : ℕ) (g : Graph) (n : ℕ) (c : Color) (s : Search)
    → (s.stack ≡ []) × IsSound g s
    → ((visit_white fuel g n c s).stack ≡ []) × IsSound g (visit_white fuel g n c s)
unfolding visit_white
visit_white-IsSound fuel g n white s (e, i) = (
  visit-stack fuel g n s ∙ e,
  visit-IsSound fuel g n s (subst (λ t. IsWalk g (t ++ n ∷ [])) (sym e) tt) i,
)
visit_white-IsSound fuel g n gray s i = i
visit_white-IsSound fuel g n black s i = i

pub visit_keys-IsSound :
    (fuel : ℕ) (g : Graph) (ns : List ℕ) (s : Search)
    → (s.stack ≡ []) × IsSound g s
    → IsSound g (visit_keys fuel g ns s)
unfolding visit_keys
visit_keys-IsSound fuel g [] s i = i.1
visit_keys-IsSound fuel g (n ∷ ns) s i =
    visit_keys-IsSound fuel g ns _ (visit_white-IsSound fuel g n (color_in n s) s i)

pub fresh-IsRested : (g : Graph) → (fresh_search.stack ≡ []) × IsSound g fresh_search
unfolding lookup color_in color_of
fresh-IsRested g =
    (refl, (tt, (λ m e. absurd (ground (arith, e))), (λ m p e. absurd (ground (arith, e)))))

-- What is reported for an issue is a closed walk along declared dependencies, of one edge at least, that
-- the issue is on.
pub detect_cycles-IsReport :
    (g : Graph) (n : ℕ) (texts : List String)
    → lookup n (detect_cycles g) ≡ some texts
    → IsReport g n texts
unfolding detect_cycles
detect_cycles-IsReport g n texts h =
    (visit_keys-IsSound (suc (length g)) g (sort_ints (keys g)) fresh_search (fresh-IsRested g)).2 n
      texts h
