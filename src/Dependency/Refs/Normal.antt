-- ===== src/Dependency/Refs/Normal.antt =====
-- What a normalized reference looks like (internal/dependency/dependency.go, normalizeDependency).
use Prim.Native.Char.{code}
use workbuddy.Prelude.{
  ℕ, ◌+◌, ◌-◌, ◌*◌, ◌≤◌, ◌<◌, String, ◌≡◌, ◌≢◌, refl, ◌⊎◌, inl, inr, not, ◌&&◌, Option, none, some,
  List, [], ◌∷◌, if◌then◌else◌, if_ind, ltb, str_eq, str_eq_iff, contains, concat, itoa, All,
  Bool-cases, arith, trim_space,
}
use workbuddy.Dependency.{active, unsupported_cross_repo, invalid, ParsedDependency}
use workbuddy.Dependency.Verdicts.{IsLocal}
use workbuddy.Dependency.Refs.{
  digits_value, issue_number, local_issue_ref, after_char, fq_tail, fq_name, fq_issue_ref,
  take_name, max_int, refused, accepted, normalize_fq, normalize_local, normalize_dependency,
  add_entries, insert_dependency, is_before, sort_dependencies, parse_declaration,
  normalize_dependency_ref,
}

digits_value-le : (acc n : ℕ) (s : String) → digits_value acc s ≡ some n → acc ≤ n
unfolding digits_value
digits_value-le acc n String.[] h = ground (arith, h)
digits_value-le acc n (String.◌∷◌ c s) h =
    ground (arith, digits_value-le (acc * 10 + (code c - 48)) n s, h)

issue_number-positive : (n : ℕ) (s : String) → issue_number s ≡ some n → 0 < n
unfolding issue_number
issue_number-positive n String.[] h = ground (arith, h)
issue_number-positive n (String.◌∷◌ c s) h = ground (arith, digits_value-le (code c - 48) n s, h)

local_issue_ref-positive : (n : ℕ) (s : String) → local_issue_ref s ≡ some n → 0 < n
unfolding local_issue_ref after_char
local_issue_ref-positive n String.[] h = ground (arith, h)
local_issue_ref-positive n (String.◌∷◌ c s) h = ground (arith, issue_number-positive n s, h)

fq_tail-positive :
    (owner name : String) (o : Option String) (n : ℕ) (owner' name' : String)
    → fq_tail owner name o ≡ some (owner', name', n)
    → 0 < n
unfolding fq_tail
fq_tail-positive owner name none n owner' name' h = ground (arith, h)
fq_tail-positive owner name (some t) n owner' name' h = ground (arith, issue_number-positive n t, h)

fq_name-positive :
    (owner : String) (o : Option String) (n : ℕ) (owner' name' : String)
    → fq_name owner o ≡ some (owner', name', n)
    → 0 < n
unfolding fq_name
fq_name-positive owner none n owner' name' h = ground (arith, h)
fq_name-positive owner (some s) n owner' name' h = ground (
  arith,
  fq_tail-positive owner (take_name s).0 (after_char 35 (take_name s).1) n owner' name',
  h,
)

-- Refused, with neither a number nor a normal form; or of a number in the range of Go's int, with the
-- normal form "repo#number", and active exactly when it is of the repository itself.
abbrev pub IsNormal : String → ParsedDependency → Type 0
IsNormal repo d =
    ((d.status ≡ invalid) × (d.issue_num ≡ 0) × (d.normalized ≡ "") × (d.parse_error_reason ≢ ""))
    ⊎ (((d.status ≡ active) × (d.repo ≡ repo)
          ⊎ (d.status ≡ unsupported_cross_repo) × (d.repo ≢ repo))
        × (0 < d.issue_num)
        × (d.issue_num ≤ max_int)
        × ((d.repo ≡ "") ⊎ (d.normalized ≡ concat (d.repo ∷ "#" ∷ itoa d.issue_num ∷ []))))

normalized_or :
    (repo : String) (n : ℕ)
    → (repo ≡ "")
      ⊎ ((if str_eq repo "" then "" else concat (repo ∷ "#" ∷ itoa n ∷ []))
          ≡ concat (repo ∷ "#" ∷ itoa n ∷ []))
normalized_or repo n = elim (Bool-cases (str_eq repo "")) [
  | inl e ↦ inl ((str_eq_iff repo "").0 e)
  | inr e ↦ rw e (inr refl)
]

normalize_fq-IsNormal :
    (repo raw : String) (o : Option (String × String × ℕ))
    → ((owner name : String) (n : ℕ) → o ≡ some (owner, name, n) → 0 < n)
    → IsNormal repo (normalize_fq repo raw o)
unfolding normalize_fq refused accepted
normalize_fq-IsNormal repo raw none h = inl (refl, refl, refl, (λ e. cc))
normalize_fq-IsNormal repo raw (some (owner, name, n)) h =
    let named = concat (owner ∷ "/" ∷ name ∷ []) in
    elim (Bool-cases (ltb max_int n)) [
      | inl e ↦ rw e (inl (refl, refl, refl, (λ e. cc)))
      | inr e ↦ rw e (
          inr (
            elim (Bool-cases (str_eq named repo)) [
              | inl q ↦ rw q (inl (refl, (str_eq_iff named repo).0 q))
              | inr q ↦ rw q (inr (refl, (λ w. ground (arith, str_eq_iff named repo, w, q))))
            ],
            h owner name n refl,
            ground (arith, e),
            normalized_or named n,
          ))
    ]

normalize_local-IsNormal :
    (repo raw canonical : String) (o : Option ℕ)
    → ((n : ℕ) → o ≡ some n → 0 < n)
    → IsNormal repo (normalize_local repo raw canonical o)
unfolding normalize_local refused accepted
normalize_local-IsNormal repo raw canonical none h =
    normalize_fq-IsNormal repo raw (fq_issue_ref canonical) (λ owner name n e.
      unfold fq_issue_ref in
      (fq_name-positive (take_name canonical).0 (after_char 47 (take_name canonical).1) n owner name
        e))
normalize_local-IsNormal repo raw canonical (some n) h = elim (Bool-cases (ltb max_int n)) [
  | inl e ↦ rw e (inl (refl, refl, refl, (λ e. cc)))
  | inr e ↦ rw e (inr (inl (refl, refl), h n refl, ground (arith, e), normalized_or repo n))
]

-- Whatever the text of a reference: it is refused, with a reason and with neither a number nor a normal
-- form; or its number is positive and fits Go's int, its normal form is "repo#number" where the repository
-- has a name, and it is active exactly where it is of the repository itself.
pub normalize_dependency-IsNormal :
    (repo raw : String) → IsNormal repo (normalize_dependency repo raw)
unfolding normalize_dependency
normalize_dependency-IsNormal repo raw =
    normalize_local-IsNormal repo (trim_space raw) _ _
      (λ n e. local_issue_ref-positive n (normalize_dependency_ref (trim_space raw)) e)

IsNormal-IsLocal : (repo : String) (d : ParsedDependency) → IsNormal repo d → IsLocal repo d
IsNormal-IsLocal repo d (inl h) = inr (inl h.0)
IsNormal-IsLocal repo d (inr (inl h, _, _, _)) = inr (inr ((str_eq_iff d.repo repo).1 h.1))
IsNormal-IsLocal repo d (inr (inr h, _, _, _)) = inl h.0

add_entries-IsLocal :
    (repo : String) (seen raws : List String) → All (IsLocal repo) (add_entries repo seen raws)
unfolding add_entries
add_entries-IsLocal repo seen [] = tt
add_entries-IsLocal repo seen (raw ∷ raws) =
    let d = normalize_dependency repo raw in
    let seen' = if str_eq d.normalized "" then seen else d.normalized ∷ seen in
    let rest = add_entries-IsLocal repo seen' raws in
    if_ind (All (IsLocal repo)) (not (str_eq d.normalized "") && contains seen d.normalized) rest
      (IsNormal-IsLocal repo d (normalize_dependency-IsNormal repo raw), rest)

insert_dependency-All :
    (P : ParsedDependency → Type 0) (d : ParsedDependency) (es : List ParsedDependency)
    → P d
    → All P es
    → All P (insert_dependency d es)
unfolding insert_dependency
insert_dependency-All P d [] h hs = (h, tt)
insert_dependency-All P d (e ∷ es) h (k, ks) =
    if_ind (All P) (is_before d e) (h, (k, ks)) (k, insert_dependency-All P d es h ks)

sort_dependencies-All :
    (P : ParsedDependency → Type 0) (ds : List ParsedDependency)
    → All P ds
    → All P (sort_dependencies ds)
unfolding sort_dependencies
sort_dependencies-All P [] h = tt
sort_dependencies-All P (d ∷ ds) (h, hs) =
    insert_dependency-All P d (sort_dependencies ds) h (sort_dependencies-All P ds hs)

pub parse_declaration-IsLocal :
    (repo : String) (o : Option (List String)) → All (IsLocal repo) (parse_declaration repo o)
unfolding parse_declaration
parse_declaration-IsLocal repo none = tt
parse_declaration-IsLocal repo (some raws) =
    sort_dependencies-All (IsLocal repo) (add_entries repo [] raws)
      (add_entries-IsLocal repo [] raws)
