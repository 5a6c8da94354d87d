-- ===== src/Dependency/Refs/Printed.antt =====
-- A printed reference is read back (internal/dependency/dependency.go, normalizeDependency).
use Prim.Native.Char.{code}
use Prim.Native.String.{◌++◌ as text_append}
use Prim.Native.String.append
use workbuddy.Prelude.{
  ℕ, zero, suc, ◌+◌, ◌-◌, ◌*◌, ◌/◌, ◌%◌, ◌≤◌, ◌<◌, String, ◌≡◌, refl, ap, ◌∙◌, inl, inr, false,
  ◌&&◌, Option, none, some, if_ind, ltb, leb, ◌==◌, itoa, digits, digit, Bool-cases, arith,
  trim_space, trim_left, trim_right, is_space,
}
use workbuddy.Dependency.{active}
use workbuddy.Dependency.Refs.{
  unescape, strip_matching_quotes, normalize_dependency_ref, digits_value, issue_number,
  local_issue_ref, after_char, max_int, accepted, normalize_local, normalize_dependency,
}

-- A sign or a digit: what neither trimming nor unescaping touches.
abbrev IsPlain : String → Type 0
IsPlain String.[] = Unit
IsPlain (String.◌∷◌ c s) = (34 < code c) × (code c < 58) × IsPlain s

trim_right-IsPlain : (s : String) → IsPlain s → trim_right s ≡ s
unfolding trim_right is_space
trim_right-IsPlain String.[] h = refl
trim_right-IsPlain (String.◌∷◌ c s) (lo, hi, h) = ground (arith, trim_right-IsPlain s h, lo, hi)

trim_left-IsPlain : (s : String) → IsPlain s → trim_left s ≡ s
unfolding trim_left is_space
trim_left-IsPlain String.[] h = refl
trim_left-IsPlain (String.◌∷◌ c s) (lo, hi, h) = ground (arith, lo, hi)

trim_space-IsPlain : (s : String) → IsPlain s → trim_space s ≡ s
unfolding trim_space
trim_space-IsPlain s h = rw (trim_left-IsPlain s h) (trim_right-IsPlain s h)

unescape-IsPlain : (q : ℕ) (s : String) → IsPlain s → unescape q false s ≡ s
unfolding unescape
unescape-IsPlain q String.[] h = refl
unescape-IsPlain q (String.◌∷◌ c s) (lo, hi, h) = ground (arith, unescape-IsPlain q s h, lo, hi)

digit-IsPlain : (n : ℕ) → IsPlain (digit n)
digit-IsPlain n = if_ind IsPlain (n == 0) (ground arith) (
    if_ind IsPlain (n == 1) (ground arith) (
      if_ind IsPlain (n == 2) (ground arith) (
        if_ind IsPlain (n == 3) (ground arith) (
          if_ind IsPlain (n == 4) (ground arith) (
            if_ind IsPlain (n == 5) (ground arith) (
              if_ind IsPlain (n == 6) (ground arith) (
                if_ind IsPlain (n == 7) (ground arith)
                  (if_ind IsPlain (n == 8) (ground arith) (ground arith)))))))))

append-IsPlain : (s t : String) → IsPlain s → IsPlain t → IsPlain (text_append s t)
append-IsPlain String.[] t h k = rw (append.nil t) k
append-IsPlain (String.◌∷◌ c s) t (lo, hi, h) k =
    rw (append.cons c s t) (lo, hi, append-IsPlain s t h k)

digits-IsPlain : (fuel n : ℕ) → IsPlain (digits fuel n)
unfolding digits
digits-IsPlain zero n = digit-IsPlain n
digits-IsPlain (suc fuel) n = elim (Bool-cases (ltb n 10)) [
  | inl e ↦ rw e (digit-IsPlain n)
  | inr e ↦ rw e (
      append-IsPlain (digits fuel (n / 10)) (digit (n % 10)) (digits-IsPlain fuel (n / 10))
        (digit-IsPlain (n % 10)))
]

digits_value-digit : (acc n : ℕ) → n < 10 → digits_value acc (digit n) ≡ some (acc * 10 + n)
unfolding digits_value
digits_value-digit acc zero h = refl
digits_value-digit acc (suc zero) h = refl
digits_value-digit acc (suc (suc zero)) h = refl
digits_value-digit acc (suc (suc (suc zero))) h = refl
digits_value-digit acc (suc (suc (suc (suc zero)))) h = refl
digits_value-digit acc (suc (suc (suc (suc (suc zero))))) h = refl
digits_value-digit acc (suc (suc (suc (suc (suc (suc zero)))))) h = refl
digits_value-digit acc (suc (suc (suc (suc (suc (suc (suc zero))))))) h = refl
digits_value-digit acc (suc (suc (suc (suc (suc (suc (suc (suc zero)))))))) h = refl
digits_value-digit acc (suc (suc (suc (suc (suc (suc (suc (suc (suc zero))))))))) h = refl
digits_value-digit acc (suc (suc (suc (suc (suc (suc (suc (suc (suc (suc n)))))))))) h =
    absurd (omega (arith, h))

digits_value-last : (acc n m : ℕ) → n < 10 → acc * 10 + n ≡ m → digits_value acc (digit n) ≡ some m
digits_value-last acc n m h e = digits_value-digit acc n h ∙ ap (λ (k : ℕ). some k) e

abbrev and_then : Option ℕ → String → Option ℕ
and_then none t = none
and_then (some n) t = digits_value n t

digits_value-append :
    (acc : ℕ) (s t : String) → digits_value acc (text_append s t) ≡ and_then (digits_value acc s) t
unfolding digits_value
digits_value-append acc String.[] t = rw (append.nil t) refl
digits_value-append acc (String.◌∷◌ c s) t =
    rw (append.cons c s t) (elim (Bool-cases (leb 48 (code c) && leb (code c) 57)) [
      | inl e ↦ rw e (digits_value-append (acc * 10 + (code c - 48)) s t)
      | inr e ↦ rw e refl
    ])

digits_value-digits : (fuel n : ℕ) → n ≤ fuel → digits_value 0 (digits fuel n) ≡ some n
unfolding digits
digits_value-digits zero n h = digits_value-last 0 n n (omega (arith, h)) (omega arith)
digits_value-digits (suc fuel) n h = elim (Bool-cases (ltb n 10)) [
  | inl e ↦ rw e (digits_value-last 0 n n (ground (arith, e)) (omega arith))
  | inr e ↦
      let big : 10 ≤ n = ground (arith, e) in
      rw e (
        digits_value-append 0 (digits fuel (n / 10)) (digit (n % 10))
        ∙ (rw (digits_value-digits fuel (n / 10) (omega (arith, h, big)))
            (digits_value-last (n / 10) (n % 10) n (omega arith) (omega arith))))
]

-- The first digit is not zero.
abbrev IsLed : String → Type 0
IsLed String.[] = ⊥
IsLed (String.◌∷◌ c s) = (49 ≤ code c) × (code c ≤ 57)

digit-IsLed : (n : ℕ) → 0 < n → IsLed (digit n)
digit-IsLed n h = elim (Bool-cases (n == 0)) [
  | inl e ↦ absurd (ground (arith, e, h))
  | inr e ↦ rw e (
      if_ind IsLed (n == 1) (ground arith) (
        if_ind IsLed (n == 2) (ground arith) (
          if_ind IsLed (n == 3) (ground arith) (
            if_ind IsLed (n == 4) (ground arith) (
              if_ind IsLed (n == 5) (ground arith) (
                if_ind IsLed (n == 6) (ground arith) (
                  if_ind IsLed (n == 7) (ground arith)
                    (if_ind IsLed (n == 8) (ground arith) (ground arith)))))))))
]

append-IsLed : (s t : String) → IsLed s → IsLed (text_append s t)
append-IsLed String.[] t h = elim h [ ]
append-IsLed (String.◌∷◌ c s) t h = rw (append.cons c s t) h

digits-IsLed : (fuel n : ℕ) → 0 < n → n ≤ fuel → IsLed (digits fuel n)
unfolding digits
digits-IsLed zero n h k = digit-IsLed n h
digits-IsLed (suc fuel) n h k = elim (Bool-cases (ltb n 10)) [
  | inl e ↦ rw e (digit-IsLed n h)
  | inr e ↦
      let big : 10 ≤ n = ground (arith, e) in
      rw e (
        append-IsLed (digits fuel (n / 10)) (digit (n % 10))
          (digits-IsLed fuel (n / 10) (omega (arith, big)) (omega (arith, k, big))))
]

issue_number-IsLed : (s : String) → IsLed s → issue_number s ≡ digits_value 0 s
unfolding issue_number digits_value
issue_number-IsLed String.[] h = elim h [ ]
issue_number-IsLed (String.◌∷◌ c s) (lo, hi) = ground (arith, lo, hi)

pub issue_number-itoa : (n : ℕ) → 0 < n → issue_number (itoa n) ≡ some n
unfolding itoa
issue_number-itoa n h =
    issue_number-IsLed (digits n n) (digits-IsLed n n h (omega arith))
    ∙ digits_value-digits n n (omega arith)

strip-IsPlain : (s : String) → strip_matching_quotes (String.◌∷◌ "#" s) ≡ String.◌∷◌ "#" s
unfolding strip_matching_quotes
strip-IsPlain s = refl

normalize_dependency_ref-IsPlain :
    (s : String)
    → IsPlain (String.◌∷◌ "#" s)
    → normalize_dependency_ref (String.◌∷◌ "#" s) ≡ String.◌∷◌ "#" s
unfolding normalize_dependency_ref
normalize_dependency_ref-IsPlain s h =
    rw
      (
        trim_space-IsPlain (String.◌∷◌ "#" s) h,
        unescape-IsPlain 34 (String.◌∷◌ "#" s) h,
        unescape-IsPlain 39 (String.◌∷◌ "#" s) h,
        strip-IsPlain s,
      )
      (trim_space-IsPlain (String.◌∷◌ "#" s) h)

itoa-IsPlain : (n : ℕ) → IsPlain (String.◌∷◌ "#" (itoa n))
unfolding itoa
itoa-IsPlain n = (ground arith, ground arith, digits-IsPlain n n)

local_issue_ref-itoa : (n : ℕ) → 0 < n → local_issue_ref (String.◌∷◌ "#" (itoa n)) ≡ some n
unfolding local_issue_ref after_char
local_issue_ref-itoa n h = rw (issue_number-itoa n h) refl

-- "#n", for a positive number in the range of Go's int, is read as the active reference to the issue n of
-- the repository.
pub normalize_dependency-itoa :
    (repo : String) (n : ℕ)
    → 0 < n
    → n ≤ max_int
    → normalize_dependency repo (String.◌∷◌ "#" (itoa n))
      ≡ accepted (String.◌∷◌ "#" (itoa n)) repo n active
unfolding normalize_dependency normalize_local
normalize_dependency-itoa repo n pos fits =
    let s : String = String.◌∷◌ "#" (itoa n) in
    let e : ltb max_int n ≡ false = ground (arith, fits) in
    rw
      (
        trim_space-IsPlain s (itoa-IsPlain n),
        normalize_dependency_ref-IsPlain (itoa n) (itoa-IsPlain n),
        local_issue_ref-itoa n pos,
        e,
      )
      refl
