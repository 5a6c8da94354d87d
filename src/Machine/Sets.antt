-- ===== src/Machine/Sets.antt =====
-- Finite sets of texts as lists, and that a part as large as the whole is the whole.
use workbuddy.Prelude.{
  suc, ◌≤◌, String, ◌≡◌, refl, inl, inr, true, false, List, [], ◌∷◌, arith, if◌then◌else◌, str_eq,
  str_eq_iff, length, contains, Bool-cases,
}

abbrev pub Subset : List String → List String → Type 0
Subset xs ys = (k : String) → contains xs k ≡ true → contains ys k ≡ true

abbrev pub Distinct : List String → Type 0
Distinct [] = Unit
Distinct (x ∷ xs) = (contains xs x ≡ false) × Distinct xs

remove : String → List String → List String
remove k [] = []
remove k (y ∷ ys) = if str_eq y k then ys else y ∷ remove k ys

length-remove :
    (k : String) (ys : List String) → contains ys k ≡ true → length ys ≡ suc (length (remove k ys))
unfolding contains remove
length-remove k [] h = absurd (ground arith)
length-remove k (y ∷ ys) h = ground (arith, length-remove k ys)

contains-remove :
    (k j : String) (ys : List String)
    → contains ys j ≡ true
    → str_eq k j ≡ false
    → contains (remove k ys) j ≡ true
unfolding contains remove
contains-remove k j [] h d = absurd (ground arith)
contains-remove k j (y ∷ ys) h d =
    ground (arith, contains-remove k j ys, str_eq_iff y k, str_eq_iff y j, str_eq_iff k j)

pub contains_head : (k : String) (xs : List String) → contains (k ∷ xs) k ≡ true
unfolding contains
contains_head k xs = ground (arith, (str_eq_iff k k).1 refl)

pub contains_tail :
    (k j : String) (xs : List String) → contains xs k ≡ true → contains (j ∷ xs) k ≡ true
unfolding contains
contains_tail k j xs h = ground arith

-- A set of distinct elements is no larger than a set that holds them all.
pub length-Subset : (xs ys : List String) → Distinct xs → Subset xs ys → length xs ≤ length ys
unfolding contains
length-Subset [] ys d s = omega arith
length-Subset (x ∷ xs) ys d s =
    let here = s x (contains_head x xs) in
    let rest = length-Subset xs (remove x ys) d.1 (λ k h.
      contains-remove x k ys (s k (contains_tail k x xs h)) (elim (Bool-cases (str_eq x k)) [
        | inl same ↦ absurd (ground (arith, d.0, rw (← (str_eq_iff x k).0 same) at h))
        | inr other ↦ other
      ])) in
    omega (arith, length-remove x ys here, rest)

-- ... and where it is as large, it is the whole set.
pub Subset_whole :
    (xs ys : List String) → Distinct xs → Subset xs ys → length ys ≤ length xs → Subset ys xs
unfolding contains
Subset_whole xs ys d s h k m = elim (Bool-cases (contains xs k)) [
  | inl yes_k ↦ yes_k
  | inr no_k ↦
      let more : suc (length xs) ≤ length ys =
        length-Subset (k ∷ xs) ys (no_k, d)
          (λ j i. elim (Bool-cases (str_eq k j)) [
            | inl same ↦ rw (← (str_eq_iff k j).0 same) m
            | inr other ↦ s j (ground arith)
          ]) in
      absurd (omega arith)
]
