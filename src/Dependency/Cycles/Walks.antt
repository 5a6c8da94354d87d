-- ===== src/Dependency/Cycles/Walks.antt =====
-- Walks in the graph of the dependencies (internal/dependency/dependency.go).
use workbuddy.Prelude.{
  ℕ, ◌≡◌, refl, ap, subst, ◌⊎◌, inl, inr, List, [], ◌∷◌, ◌++◌, some, ◌==◌, ==_iff, Bool-cases, Some,
  arith,
}
use workbuddy.Dependency.Cycles.{Graph, next_of, drop_to, or_else, extract_cycle_path, drop_last}

abbrev pub Mem : ℕ → List ℕ → Type 0
Mem n ns = Some (λ m. m ≡ n) ns

-- Each number of the list depends on the next one.
abbrev pub IsWalk : Graph → List ℕ → Type 0
IsWalk g [] = Unit
IsWalk g (n ∷ []) = Unit
IsWalk g (n ∷ m ∷ ns) = Mem m (next_of g n) × IsWalk g (m ∷ ns)

-- A walk that comes back to where it starts, over one edge at least.
abbrev pub IsCycle : Graph → List ℕ → Type 0
IsCycle g p = (n : ℕ) × (ns : List ℕ) × (p ≡ n ∷ ns ++ n ∷ []) × IsWalk g p

pub Mem-append_left : (n : ℕ) (xs ys : List ℕ) → Mem n xs → Mem n (xs ++ ys)
Mem-append_left n [] ys h = elim h [ ]
Mem-append_left n (x ∷ xs) ys (inl e) = inl e
Mem-append_left n (x ∷ xs) ys (inr h) = inr (Mem-append_left n xs ys h)

pub Mem-append_last : (n m : ℕ) (xs : List ℕ) → Mem n (xs ++ m ∷ []) → Mem n xs ⊎ (m ≡ n)
Mem-append_last n m [] (inl e) = inr e
Mem-append_last n m [] (inr h) = elim h [ ]
Mem-append_last n m (x ∷ xs) (inl e) = inl (inl e)
Mem-append_last n m (x ∷ xs) (inr h) = elim (Mem-append_last n m xs h) [
  | inl k ↦ inl (inr k)
  | inr e ↦ inr e
]

pub Mem-last : (n : ℕ) (xs : List ℕ) → Mem n (xs ++ n ∷ [])
Mem-last n [] = inl refl
Mem-last n (x ∷ xs) = inr (Mem-last n xs)

pub drop_last-append : (n : ℕ) (xs : List ℕ) → drop_last (xs ++ n ∷ []) ≡ xs
unfolding drop_last
drop_last-append n [] = refl
drop_last-append n (x ∷ []) = refl
drop_last-append n (x ∷ y ∷ xs) = ap (λ t. x ∷ t) (drop_last-append n (y ∷ xs))

-- A walk to `n`, and an edge from `n`.
pub IsWalk-append :
    (g : Graph) (n m : ℕ) (xs : List ℕ)
    → IsWalk g (xs ++ n ∷ [])
    → Mem m (next_of g n)
    → IsWalk g ((xs ++ n ∷ []) ++ m ∷ [])
IsWalk-append g n m [] w e = (e, tt)
IsWalk-append g n m (x ∷ []) (h, w) e = (h, (e, tt))
IsWalk-append g n m (x ∷ y ∷ xs) (h, w) e = (h, IsWalk-append g n m (y ∷ xs) w e)

IsWalk-tail : (g : Graph) (n : ℕ) (ns : List ℕ) → IsWalk g (n ∷ ns) → IsWalk g ns
IsWalk-tail g n [] w = tt
IsWalk-tail g n (m ∷ ns) (h, w) = w

-- What is found on the stack: the rest of a walk, from the target on.
drop_to-IsWalk :
    (g : Graph) (t : ℕ) (xs ys : List ℕ)
    → IsWalk g (xs ++ ys)
    → Mem t xs
    → (ns : List ℕ) × (drop_to t xs ≡ some (t ∷ ns)) × IsWalk g ((t ∷ ns) ++ ys)
unfolding drop_to
drop_to-IsWalk g t [] ys w h = elim h [ ]
drop_to-IsWalk g t (x ∷ xs) ys w h = elim (Bool-cases (x == t)) [
  | inl e ↦
      let q = (==_iff x t).0 e in
      rw e (xs, ap (λ n. some (n ∷ xs)) q, subst (λ n. IsWalk g ((n ∷ xs) ++ ys)) q w)
  | inr e ↦ rw e (elim h [
    | inl q ↦ absurd (ground (arith, q, e))
    | inr k ↦ drop_to-IsWalk g t xs ys (IsWalk-tail g x (xs ++ ys) w) k
  ])
]

pub extract_cycle_path-IsCycle :
    (g : Graph) (stack : List ℕ) (t : ℕ)
    → IsWalk g (stack ++ t ∷ [])
    → Mem t stack
    → IsCycle g (extract_cycle_path stack t)
unfolding extract_cycle_path or_else
extract_cycle_path-IsCycle g stack t w h =
    let (ns, e, v) = drop_to-IsWalk g t stack (t ∷ []) w h in rw e (t, ns, refl, v)
