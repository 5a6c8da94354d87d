-- ===== src/Dependency/Cycles/Steps.antt =====
-- What a step of the search does to the colors (internal/dependency/dependency.go, detectCycles).
use workbuddy.Prelude.{
  ℕ, ◌≡◌, ◌≢◌, refl, ap, sym, subst, ◌∙◌, ◌⊎◌, inl, inr, List, [], ◌∷◌, ◌==◌, ==_iff, Bool-cases,
  if◌then◌else◌, zero, suc, arith, ◌≤◌, ◌<◌, lookup, lookup-insert, nat_eq,
}
use workbuddy.Dependency.Cycles.{
  Color, white, gray, black, Graph, color_of, Search, next_of, deps_of, keys, color_in, enter,
  leave, close_cycle, meet, each_next, visit,
}
use workbuddy.Dependency.Cycles.Walks.{Mem}

pub color_in-enter :
    (n m : ℕ) (s : Search) → color_in n (enter m s) ≡ (if m == n then gray else color_in n s)
unfolding color_in color_of enter
color_in-enter n m s =
    rw (lookup-insert m n gray s.colors)
      (elim (Bool-cases (m == n)) [ inl e ↦ rw e refl | inr e ↦ rw e refl ])

pub color_in-leave :
    (n m : ℕ) (s : Search) → color_in n (leave m s) ≡ (if m == n then black else color_in n s)
unfolding color_in color_of leave
color_in-leave n m s =
    rw (lookup-insert m n black s.colors)
      (elim (Bool-cases (m == n)) [ inl e ↦ rw e refl | inr e ↦ rw e refl ])

-- The keys that are white.
unfoldable pub whites : List ℕ → Search → ℕ
whites [] s = 0
whites (n ∷ ns) s = elim (color_in n s) [
  | white ↦ suc (whites ns s)
  | gray ↦ whites ns s
  | black ↦ whites ns s
]

-- What is not white keeps its color.
abbrev pub IsKept : Search → Search → Type 0
IsKept s t = (n : ℕ) → color_in n s ≢ white → color_in n t ≡ color_in n s

pub IsKept-trans : (s t u : Search) → IsKept s t → IsKept t u → IsKept s u
IsKept-trans s t u h k n e = k n (subst (λ c. c ≢ white) (sym (h n e)) e) ∙ h n e

pub whites_le : (ns : List ℕ) (s t : Search) → IsKept s t → whites ns t ≤ whites ns s
unfolding whites
whites_le [] s t h = omega arith
whites_le (n ∷ ns) s t h = ground (arith, whites_le ns s t h, h n)

enter-IsKept : (n : ℕ) (s : Search) → color_in n s ≡ white → IsKept s (enter n s)
enter-IsKept n s e m h = ground (arith, e, h, color_in-enter m n s, ==_iff n m)

enter-whites :
    (n : ℕ) (ns : List ℕ) (s : Search)
    → color_in n s ≡ white
    → Mem n ns
    → whites ns (enter n s) < whites ns s
unfolding whites
enter-whites n [] s e h = elim h [ ]
enter-whites n (m ∷ ns) s e (inl q) = ground (
  arith,
  whites_le ns s (enter n s) (enter-IsKept n s e),
  color_in-enter m n s,
  ==_iff n m,
  q,
  ap (λ k. color_in k s) q,
  e,
)
enter-whites n (m ∷ ns) s e (inr h) = ground (arith, enter-whites n ns s e h, enter-IsKept n s e m)

pub lookup-Mem : (n : ℕ) (g : Graph) → (deps_of (lookup n g) ≡ []) ⊎ Mem n (keys g)
unfolding lookup keys deps_of
lookup-Mem n [] = inl refl
lookup-Mem n ((m, ms) ∷ g) = elim (Bool-cases (m == n)) [
  | inl e ↦ inr (inl ((==_iff m n).0 e))
  | inr e ↦ elim (lookup-Mem n g) [ inl q ↦ inl (rw e q) | inr h ↦ inr (inr h) ]
]

-- A node without dependencies, or one white key less.
pub enter-progress :
    (g : Graph) (n : ℕ) (s : Search)
    → color_in n s ≡ white
    → (next_of g n ≡ []) ⊎ (whites (keys g) (enter n s) < whites (keys g) s)
unfolding next_of
enter-progress g n s e = elim (lookup-Mem n g) [
  | inl q ↦ inl q
  | inr h ↦ inr (enter-whites n (keys g) s e h)
]

abbrev pub Fixes : (ℕ → Search → Search) → Type 0
Fixes go = (n : ℕ) (s : Search) → color_in n s ≡ white → IsKept s (go n s)

pub meet-IsKept :
    (go : ℕ → Search → Search)
    → Fixes go
    → (n : ℕ) (c : Color) (s : Search) → color_in n s ≡ c
    → IsKept s (meet go n c s)
unfolding meet
meet-IsKept go fixed n white s e = fixed n s e
meet-IsKept go fixed n gray s e = unfold close_cycle color_in in (λ m h. refl)
meet-IsKept go fixed n black s e = λ m h. refl

pub each_next-IsKept :
    (go : ℕ → Search → Search)
    → Fixes go
    → (ns : List ℕ) (s : Search) → IsKept s (each_next go ns s)
unfolding each_next
each_next-IsKept go fixed [] s = λ m h. refl
each_next-IsKept go fixed (n ∷ ns) s =
    let s' = meet go n (color_in n s) s in
    IsKept-trans s s' (each_next go ns s') (meet-IsKept go fixed n (color_in n s) s refl)
      (each_next-IsKept go fixed ns s')

pub visit-IsKept : (fuel : ℕ) (g : Graph) → Fixes (visit fuel g)
unfolding visit
visit-IsKept zero g n s e = λ m h. refl
visit-IsKept (suc fuel) g n s e =
    let s' = each_next (visit fuel g) (next_of g n) (enter n s) in
    let kept =
      IsKept-trans s (enter n s) s' (enter-IsKept n s e)
        (each_next-IsKept (visit fuel g) (visit-IsKept fuel g) (next_of g n) (enter n s)) in
    λ m h. ground (arith, kept m h, color_in-leave m n s', ==_iff n m, e, h)
