-- ===== src/Store/Rows.antt =====
-- A table as the list of its rows in rowid order: `UPDATE … WHERE`, its affected rows, and the first
-- row of a `SELECT`.
use workbuddy.Prelude.{
  ◌≡◌, refl, Bool, true, false, Option, none, some, List, [], ◌∷◌, ◌++◌, arith, if◌then◌else◌,
  Bool-cases, inl, inr,
}

module _ {ℓ} {R : Type ℓ} where
  unfoldable pub update_rows : (R → Bool) → (R → R) → List R → List R
  update_rows p f [] = []
  update_rows p f (r ∷ rs) = (if p r then f r else r) ∷ update_rows p f rs

  unfoldable pub affected : (R → Bool) → List R → Bool
  affected p [] = false
  affected p (r ∷ rs) = if p r then true else affected p rs

  unfoldable pub find_row : (R → Bool) → List R → Option R
  find_row p [] = none
  find_row p (r ∷ rs) = if p r then some r else find_row p rs

  abbrev pub update_if : (R → Bool) → (R → R) → Option R → Option R
  update_if p f none = none
  update_if p f (some r) = some (if p r then f r else r)

  -- An update that leaves the searched column alone is seen through the search.
  pub find_row-update_rows :
      (q p : R → Bool) (f : R → R) (rs : List R)
      → ((r : R) → q (f r) ≡ q r)
      → find_row q (update_rows p f rs) ≡ update_if p f (find_row q rs)
  unfolding find_row update_rows
  find_row-update_rows q p f [] h = refl
  find_row-update_rows q p f (r ∷ rs) h = ground (arith, h r, find_row-update_rows q p f rs h)

  pub find_row-sat : (q : R → Bool) (rs : List R) (r : R) → find_row q rs ≡ some r → q r ≡ true
  unfolding find_row
  find_row-sat q [] r e = cc
  find_row-sat q (x ∷ rs) r e = elim (Bool-cases (q x)) [
    | inl h ↦ ground arith
    | inr h ↦ find_row-sat q rs r (ground arith)
  ]

  pub affected_of_find :
      (q p : R → Bool) (rs : List R) (r : R)
      → find_row q rs ≡ some r
      → p r ≡ true
      → affected p rs ≡ true
  unfolding find_row affected
  affected_of_find q p [] r e h = cc
  affected_of_find q p (x ∷ rs) r e h = ground (arith, affected_of_find q p rs r)

  -- What a narrower condition than `q` finds, where the row that `q` finds is the only one.
  abbrev pub Once : (R → Bool) → List R → Type 0
  Once q [] = Unit
  Once q (r ∷ rs) = (q r ≡ true → affected q rs ≡ false) × Once q rs

  pub affected_none :
      (q p : R → Bool) (rs : List R)
      → ((r : R) → p r ≡ true → q r ≡ true)
      → affected q rs ≡ false
      → affected p rs ≡ false
  unfolding affected
  affected_none q p [] h e = refl
  affected_none q p (r ∷ rs) h e = ground (arith, h r, affected_none q p rs h)

  pub affected-Once :
      (q p : R → Bool) (rs : List R) (r : R)
      → ((x : R) → p x ≡ true → q x ≡ true)
      → Once q rs
      → find_row q rs ≡ some r
      → affected p rs ≡ p r
  unfolding find_row affected
  affected-Once q p [] r h o e = cc
  affected-Once q p (x ∷ rs) r h o e =
      ground (arith, h x, affected-Once q p rs r h o.1, affected_none q p rs h)

  pub affected-update_rows :
      (q p : R → Bool) (f : R → R) (rs : List R)
      → ((r : R) → q (f r) ≡ q r)
      → affected q (update_rows p f rs) ≡ affected q rs
  unfolding affected update_rows
  affected-update_rows q p f [] h = refl
  affected-update_rows q p f (r ∷ rs) h = ground (arith, h r, affected-update_rows q p f rs h)

  pub Once-update_rows :
      (q p : R → Bool) (f : R → R) (rs : List R)
      → ((r : R) → q (f r) ≡ q r)
      → Once q rs
      → Once q (update_rows p f rs)
  unfolding update_rows
  Once-update_rows q p f [] h o = tt
  Once-update_rows q p f (r ∷ rs) h o =
      (ground (arith, h r, affected-update_rows q p f rs h, o.0), Once-update_rows q p f rs h o.1)

  pub find_row-append :
      (q : R → Bool) (xs ys : List R) (r : R)
      → find_row q xs ≡ some r
      → find_row q (xs ++ ys) ≡ some r
  unfolding find_row
  find_row-append q [] ys r e = cc
  find_row-append q (x ∷ xs) ys r e = ground (arith, find_row-append q xs ys r)

  pub affected-append :
      (q : R → Bool) (xs ys : List R)
      → affected q (xs ++ ys) ≡ (if affected q xs then true else affected q ys)
  unfolding affected
  affected-append q [] ys = refl
  affected-append q (x ∷ xs) ys = ground (arith, affected-append q xs ys)

  pub Once-snoc :
      (q : R → Bool) (xs : List R) (y : R)
      → Once q xs
      → (q y ≡ true → affected q xs ≡ false)
      → Once q (xs ++ y ∷ [])
  unfolding affected
  Once-snoc q [] y o h = (λ e. refl, tt)
  Once-snoc q (x ∷ xs) y o h = (
    λ e. ground (arith, affected-append q xs (y ∷ []), o.0 e, h),
    Once-snoc q xs y o.1 (λ e. ground (arith, h e)),
  )
