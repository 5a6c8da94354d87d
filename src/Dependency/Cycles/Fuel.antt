-- ===== src/Dependency/Cycles/Fuel.antt =====
-- More fuel than the search is given changes nothing (internal/dependency/dependency.go, detectCycles).
use workbuddy.Prelude.{
  ℕ, zero, suc, ◌≡◌, refl, ap, ◌∙◌, inl, inr, List, [], ◌∷◌, length, arith, ◌<◌, ◌≤◌,
}
use workbuddy.Dependency.Cycles.{
  Color, white, gray, black, Graph, Search, next_of, color_in, enter, leave, meet, each_next, visit,
  keys, visit_white, visit_keys,
}
use workbuddy.Dependency.Cycles.Steps.{
  whites, whites_le, enter-progress, Fixes, meet-IsKept, visit-IsKept,
}
use workbuddy.Dependency.Cycles.Done.{whites-length}

-- Two ways to go on from a node do the same below a bound on the white keys.
abbrev Same : Graph → ℕ → (ℕ → Search → Search) → (ℕ → Search → Search) → Type 0
Same g bound go go' =
    (n : ℕ) (s : Search) → whites (keys g) s < bound → color_in n s ≡ white → go n s ≡ go' n s

module _ (g : Graph) (bound : ℕ) (go go' : ℕ → Search → Search) (fixed : Fixes go)
    (same : Same g bound go go') where
  meet-Same :
      (n : ℕ) (c : Color) (s : Search)
      → color_in n s ≡ c
      → whites (keys g) s < bound
      → meet go n c s ≡ meet go' n c s
  unfolding meet
  meet-Same n white s e b = same n s b e
  meet-Same n gray s e b = refl
  meet-Same n black s e b = refl

  each_next-Same :
      (ns : List ℕ) (s : Search)
      → whites (keys g) s < bound
      → each_next go ns s ≡ each_next go' ns s
  unfolding each_next
  each_next-Same [] s b = refl
  each_next-Same (n ∷ ns) s b =
      let t = meet go n (color_in n s) s in
      let b' : whites (keys g) t < bound =
        omega (arith, b, whites_le (keys g) s t (meet-IsKept go fixed n (color_in n s) s refl)) in
      each_next-Same ns t b' ∙ ap (λ u. each_next go' ns u) (meet-Same n (color_in n s) s refl b)

visit-Same :
    (fuel fuel' : ℕ) (g : Graph) → fuel ≤ fuel' → Same g fuel (visit fuel g) (visit fuel' g)
unfolding visit
visit-Same zero fuel' g l n s b e = absurd (omega (arith, b))
visit-Same (suc fuel) zero g l n s b e = absurd (omega (arith, l))
visit-Same (suc fuel) (suc fuel') g l n s b e = ap (leave n) (elim (enter-progress g n s e) [
  | inl q ↦ unfold each_next in (rw q refl)
  | inr lt ↦
      each_next-Same g fuel (visit fuel g) (visit fuel' g) (visit-IsKept fuel g)
        (visit-Same fuel fuel' g (omega (arith, l))) (next_of g n) (enter n s)
        (omega (arith, lt, b))
])

visit_white-Same :
    (fuel fuel' : ℕ) (g : Graph) (n : ℕ) (c : Color) (s : Search)
    → length g < fuel
    → fuel ≤ fuel'
    → color_in n s ≡ c
    → visit_white fuel g n c s ≡ visit_white fuel' g n c s
unfolding visit_white
visit_white-Same fuel fuel' g n white s b l e =
    visit-Same fuel fuel' g l n s (omega (arith, b, whites-length g s)) e
visit_white-Same fuel fuel' g n gray s b l e = refl
visit_white-Same fuel fuel' g n black s b l e = refl

pub visit_keys-Same :
    (fuel fuel' : ℕ) (g : Graph) (ns : List ℕ) (s : Search)
    → length g < fuel
    → fuel ≤ fuel'
    → visit_keys fuel g ns s ≡ visit_keys fuel' g ns s
unfolding visit_keys
visit_keys-Same fuel fuel' g [] s b l = refl
visit_keys-Same fuel fuel' g (n ∷ ns) s b l =
    visit_keys-Same fuel fuel' g ns _ b l
    ∙ ap (λ u. visit_keys fuel' g ns u) (visit_white-Same fuel fuel' g n (color_in n s) s b l refl)
