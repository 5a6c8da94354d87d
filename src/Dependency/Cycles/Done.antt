-- ===== src/Dependency/Cycles/Done.antt =====
-- What a visit that reports nothing leaves behind (internal/dependency/dependency.go, detectCycles).
use workbuddy.Prelude.{
  ℕ, zero, suc, ◌≡◌, ◌≢◌, refl, subst, ◌∙◌, inl, inr, List, [], ◌∷◌, ◌++◌, ◌==◌, ==_iff, Bool-cases,
  length, arith, ◌<◌, ◌≤◌, nat_eq,
}
use workbuddy.Dependency.Cycles.{
  Color, white, gray, black, Graph, Search, next_of, color_in, enter, leave, meet, each_next, visit,
  keys, visit_white,
}
use workbuddy.Dependency.Cycles.Steps.{
  color_in-enter, color_in-leave, whites, whites_le, enter-progress, Fixes, meet-IsKept,
  each_next-IsKept, visit-IsKept,
}
use workbuddy.Dependency.Cycles.Reports.{Stays, close_cycle-nonempty, each_next-out, visit-out}
use workbuddy.Dependency.Cycles.Walks.{Mem, IsWalk, IsWalk-append}

-- Every chain of dependencies from the node comes to an end.
pub data Ends (g : Graph) : ℕ → Type 0 where
  ends : {n : ℕ} → ((m : ℕ) → Mem m (next_of g n) → Ends g m) → Ends g n

pub Ends-acyclic : (g : Graph) (n : ℕ) → Ends g n → (ns : List ℕ) → IsWalk g (n ∷ ns ++ n ∷ []) → ⊥
Ends-acyclic g n (ends h) [] w = Ends-acyclic g n (h n w.0) [] w
Ends-acyclic g n (ends h) (m ∷ ns) w =
    Ends-acyclic g m (h m w.0) (ns ++ n ∷ []) (IsWalk-append g n m (m ∷ ns) w.1 w.0)

-- The black nodes have been searched to the end.
abbrev pub AreDone : Graph → Search → Type 0
AreDone g s = (n : ℕ) → color_in n s ≡ black → Ends g n

-- With the fuel of the bound, a visit that reports nothing finishes its node.
abbrev Finishes : Graph → ℕ → (ℕ → Search → Search) → Type 0
Finishes g bound go =
    (n : ℕ) (s : Search)
    → whites (keys g) s < bound
    → color_in n s ≡ white
    → (go n s).out ≡ []
    → AreDone g s
    → (color_in n (go n s) ≡ black) × AreDone g (go n s)

module _ (g : Graph) (bound : ℕ) (go : ℕ → Search → Search) (fixed : Fixes go) (stays : Stays go)
    (good : Finishes g bound go) where
  meet-done :
      (n : ℕ) (c : Color) (s : Search)
      → color_in n s ≡ c
      → whites (keys g) s < bound
      → (meet go n c s).out ≡ []
      → AreDone g s
      → (color_in n (meet go n c s) ≡ black) × AreDone g (meet go n c s)
  unfolding meet
  meet-done n white s e b h d = good n s b e h d
  meet-done n gray s e b h d = absurd (close_cycle-nonempty n s h)
  meet-done n black s e b h d = (e, d)

  each_next-done :
      (ns : List ℕ) (s : Search)
      → whites (keys g) s < bound
      → (each_next go ns s).out ≡ []
      → AreDone g s
      → ((n : ℕ) → Mem n ns → color_in n (each_next go ns s) ≡ black)
        × AreDone g (each_next go ns s)
  unfolding each_next
  each_next-done [] s b h d = ((λ n k. elim k [ ]), d)
  each_next-done (n ∷ ns) s b h d =
      let s' = meet go n (color_in n s) s in
      let (e, d') = meet-done n (color_in n s) s refl b (each_next-out go stays ns s' h) d in
      let b' : whites (keys g) s' < bound =
        omega (arith, b, whites_le (keys g) s s' (meet-IsKept go fixed n (color_in n s) s refl)) in
      let (all, d'') = each_next-done ns s' b' h d' in
      let e' = each_next-IsKept go fixed ns s' n (λ q. ground (arith, q, e)) ∙ e in
      (
        (λ m k. elim k [
          | inl q ↦ subst (λ i. color_in i (each_next go ns s') ≡ black) q e'
          | inr k' ↦ all m k'
        ]),
        d'',
      )

enter-done : (g : Graph) (n : ℕ) (s : Search) → AreDone g s → AreDone g (enter n s)
enter-done g n s d m e = d m (ground (arith, color_in-enter m n s, ==_iff n m, e))

leave-done :
    (g : Graph) (n : ℕ) (s : Search)
    → ((m : ℕ) → Mem m (next_of g n) → color_in m s ≡ black)
    → AreDone g s
    → (color_in n (leave n s) ≡ black) × AreDone g (leave n s)
leave-done g n s all d = (
  ground (arith, color_in-leave n n s, ==_iff n n),
  λ m e. elim (Bool-cases (n == m)) [
    | inl q ↦ subst (Ends g) ((==_iff n m).0 q) (ends (λ k h. d k (all k h)))
    | inr q ↦ d m (ground (arith, color_in-leave m n s, q, e))
  ],
)

no-next :
    (g : Graph) (n : ℕ) (go : ℕ → Search → Search) (s : Search)
    → next_of g n ≡ []
    → AreDone g s
    → ((m : ℕ) → Mem m (next_of g n) → color_in m (each_next go (next_of g n) s) ≡ black)
      × AreDone g (each_next go (next_of g n) s)
unfolding each_next
no-next g n go s e d = rw e ((λ m h. elim h [ ]), d)

visit-done : (fuel : ℕ) (g : Graph) → Finishes g fuel (visit fuel g)
unfolding visit
visit-done zero g n s b e h d = absurd (omega (arith, b))
visit-done (suc fuel) g n s b e h d =
    let s' = enter n s in
    let t = each_next (visit fuel g) (next_of g n) s' in
    elim (enter-progress g n s e) [
      | inl q ↦
          let (all, d') = no-next g n (visit fuel g) s' q (enter-done g n s d) in
          leave-done g n t all d'
      | inr lt ↦
          let (all, d') =
            each_next-done g fuel (visit fuel g) (visit-IsKept fuel g) (visit-out fuel g)
              (visit-done fuel g) (next_of g n) s' (omega (arith, lt, b)) (unfold leave in h)
              (enter-done g n s d) in
          leave-done g n t all d'
    ]

pub whites-length : (g : Graph) (s : Search) → whites (keys g) s ≤ length g
unfolding whites keys
whites-length [] s = omega arith
whites-length ((n, ns) ∷ g) s = ground (arith, whites-length g s)

pub visit_white-done :
    (g : Graph) (n : ℕ) (c : Color) (s : Search)
    → color_in n s ≡ c
    → c ≢ gray
    → (visit_white (suc (length g)) g n c s).out ≡ []
    → AreDone g s
    → (color_in n (visit_white (suc (length g)) g n c s) ≡ black)
      × AreDone g (visit_white (suc (length g)) g n c s)
unfolding visit_white
visit_white-done g n white s e ng h d =
    visit-done (suc (length g)) g n s (omega (arith, whites-length g s)) e h d
visit_white-done g n gray s e ng h d = absurd (ng refl)
visit_white-done g n black s e ng h d = (e, d)
