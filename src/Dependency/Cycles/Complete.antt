-- ===== src/Dependency/Cycles/Complete.antt =====
-- Where there is a cycle, one is reported (internal/dependency/dependency.go, detectCycles).
use workbuddy.Prelude.{
  ℕ, suc, String, ◌≡◌, ◌≢◌, ◌↔◌, refl, sym, ap, ◌<◌, subst, ◌∙◌, inl, inr, List, [], ◌∷◌, some,
  ==_iff, Bool-cases, length, arith, lookup, nat_eq, leb,
}
use workbuddy.Dependency.Cycles.{
  Color, white, gray, black, Graph, color_of, Search, next_of, color_in, sort_ints, insert_int,
  deps_of, keys, visit_white, visit_keys, fresh_search, detect_cycles,
}
use workbuddy.Dependency.Cycles.Steps.{IsKept, IsKept-trans, lookup-Mem, visit-IsKept}
use workbuddy.Dependency.Cycles.Reports.{visit-out}
use workbuddy.Dependency.Cycles.Walks.{Mem, IsWalk, IsCycle}
use workbuddy.Dependency.Cycles.Real.{
  IsReport, IsSound, fresh-IsRested, visit_white-IsSound, detect_cycles-IsReport,
}
use workbuddy.Dependency.Cycles.Fuel.{visit_keys-Same}
use workbuddy.Dependency.Cycles.Done.{Ends, ends, Ends-acyclic, AreDone, visit_white-done}

visit_white-out :
    (fuel : ℕ) (g : Graph) (n : ℕ) (c : Color) (s : Search)
    → (visit_white fuel g n c s).out ≡ []
    → s.out ≡ []
unfolding visit_white
visit_white-out fuel g n white s h = visit-out fuel g n s h
visit_white-out fuel g n gray s h = h
visit_white-out fuel g n black s h = h

visit_white-IsKept :
    (fuel : ℕ) (g : Graph) (n : ℕ) (c : Color) (s : Search)
    → color_in n s ≡ c
    → IsKept s (visit_white fuel g n c s)
unfolding visit_white
visit_white-IsKept fuel g n white s e = visit-IsKept fuel g n s e
visit_white-IsKept fuel g n gray s e = λ m h. refl
visit_white-IsKept fuel g n black s e = λ m h. refl

visit_keys-out :
    (fuel : ℕ) (g : Graph) (ns : List ℕ) (s : Search)
    → (visit_keys fuel g ns s).out ≡ []
    → s.out ≡ []
unfolding visit_keys
visit_keys-out fuel g [] s h = h
visit_keys-out fuel g (n ∷ ns) s h =
    visit_white-out fuel g n (color_in n s) s (visit_keys-out fuel g ns _ h)

visit_keys-IsKept :
    (fuel : ℕ) (g : Graph) (ns : List ℕ) (s : Search) → IsKept s (visit_keys fuel g ns s)
unfolding visit_keys
visit_keys-IsKept fuel g [] s = λ m h. refl
visit_keys-IsKept fuel g (n ∷ ns) s =
    let s' = visit_white fuel g n (color_in n s) s in
    IsKept-trans s s' (visit_keys fuel g ns s') (visit_white-IsKept fuel g n (color_in n s) s refl)
      (visit_keys-IsKept fuel g ns s')

-- Between two keys nothing is grey, for the stack is empty.
abbrev IsRested : Graph → Search → Type 0
IsRested g s = (s.stack ≡ []) × IsSound g s

not_gray : (g : Graph) (n : ℕ) (s : Search) → IsRested g s → color_in n s ≢ gray
not_gray g n s (e, i) h = elim (subst (Mem n) e (i.1 n h)) [ ]

visit_keys-done :
    (g : Graph) (ns : List ℕ) (s : Search)
    → IsRested g s
    → (visit_keys (suc (length g)) g ns s).out ≡ []
    → AreDone g s
    → ((n : ℕ) → Mem n ns → color_in n (visit_keys (suc (length g)) g ns s) ≡ black)
      × AreDone g (visit_keys (suc (length g)) g ns s)
unfolding visit_keys
visit_keys-done g [] s i h d = ((λ n k. elim k [ ]), d)
visit_keys-done g (n ∷ ns) s i h d =
    let fuel : ℕ = suc (length g) in
    let s' = visit_white fuel g n (color_in n s) s in
    let (e, d') =
      visit_white-done g n (color_in n s) s refl (not_gray g n s i) (visit_keys-out fuel g ns s' h)
        d in
    let (all, d'') =
      visit_keys-done g ns s' (visit_white-IsSound fuel g n (color_in n s) s i) h d' in
    let e' = visit_keys-IsKept fuel g ns s' n (λ q. ground (arith, q, e)) ∙ e in
    (
      (λ m k. elim k [
        | inl q ↦ subst (λ j. color_in j (visit_keys fuel g ns s') ≡ black) q e'
        | inr k' ↦ all m k'
      ]),
      d'',
    )

insert_int-Mem : (n m : ℕ) (ns : List ℕ) → Mem n (m ∷ ns) → Mem n (insert_int m ns)
unfolding insert_int
insert_int-Mem n m [] h = h
insert_int-Mem n m (k ∷ ns) h = elim (Bool-cases (leb m k)) [
  | inl e ↦ rw e h
  | inr e ↦ rw e (elim h [
    | inl q ↦ inr (insert_int-Mem n m ns (inl q))
    | inr (inl q) ↦ inl q
    | inr (inr q) ↦ inr (insert_int-Mem n m ns (inr q))
  ])
]

sort_ints-Mem : (n : ℕ) (ns : List ℕ) → Mem n ns → Mem n (sort_ints ns)
unfolding sort_ints
sort_ints-Mem n [] h = h
sort_ints-Mem n (m ∷ ns) h =
    insert_int-Mem n m (sort_ints ns)
      (elim h [ inl q ↦ inl q | inr k ↦ inr (sort_ints-Mem n ns k) ])

none-next : (g : Graph) (n m : ℕ) → Mem m (next_of g n) → Mem m (deps_of (lookup n g))
unfolding next_of
none-next g n m k = k

detect_cycles-Ends : (g : Graph) → detect_cycles g ≡ [] → (n : ℕ) → Ends g n
unfolding detect_cycles
detect_cycles-Ends g h n =
    let (all, d) =
      visit_keys-done g (sort_ints (keys g)) fresh_search (fresh-IsRested g) h
        (λ m e. unfold color_in color_of lookup in (absurd (ground (arith, e)))) in
    elim (lookup-Mem n g) [
      | inl q ↦ ends (λ m k. elim (subst (Mem m) q (none-next g n m k)) [ ])
      | inr k ↦ d n (all n (sort_ints-Mem n (keys g) k))
    ]

out-IsCycle :
    (g : Graph) (out : List (ℕ × List String))
    → ((n : ℕ) (p : List String) → lookup n out ≡ some p → IsReport g n p)
    → out ≢ []
    → (p : List ℕ) × IsCycle g p
unfolding lookup
out-IsCycle g [] r ne = absurd (ne refl)
out-IsCycle g ((n, p) ∷ out) r ne =
    let (path, _, c, _) = r n p (ground (arith, ==_iff n n)) in (path, c)

detect_cycles-finds : (g : Graph) → (detect_cycles g ≢ []) ↔ ((p : List ℕ) × IsCycle g p)
detect_cycles-finds g = (
  out-IsCycle g (detect_cycles g) (detect_cycles-IsReport g),
  λ (p : (p : List ℕ) × IsCycle g p) h.
      let (path, (n, ns, e, w)) = p in
      Ends-acyclic g n (detect_cycles-Ends g h n) ns (subst (IsWalk g) e w),
)

-- Something is reported exactly when the declared dependencies have a cycle; and with any more fuel than the
-- graph has keys, the search reports the same: it never runs out.
pub detect_cycles-IsCycle :
    (g : Graph) (fuel : ℕ)
    → length g < fuel
    → ((detect_cycles g ≢ []) ↔ ((p : List ℕ) × IsCycle g p))
      × ((visit_keys fuel g (sort_ints (keys g)) fresh_search).out ≡ detect_cycles g)
unfolding detect_cycles
detect_cycles-IsCycle g fuel b = (
  detect_cycles-finds g,
  sym (
      ap (λ (s : Search). s.out)
        (visit_keys-Same (suc (length g)) fuel g (sort_ints (keys g)) fresh_search (omega arith)
          (omega (arith, b)))),
)
