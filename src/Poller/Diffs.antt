-- ===== src/Poller/Diffs.antt =====
-- What the comparison of labels reports (internal/poller/poller.go, diffLabels and planDiffIssue).
use workbuddy.Prelude.{
  String, ◌≡◌, refl, sym, ◌∙◌, inl, inr, true, not, ◌&&◌, some, List, [], ◌∷◌, arith, str_eq,
  str_eq_iff, contains, sort_strings, insert_sorted, Bool-cases,
}
use workbuddy.Poller.{Issue, missing_from, diff_labels, row_of, issue_events}

contains-missing_from :
    (known ls : List String) (l : String)
    → contains (missing_from known ls) l ≡ (contains ls l && not (contains known l))
unfolding missing_from contains
contains-missing_from known [] l = refl
contains-missing_from known (x ∷ ls) l = elim (Bool-cases (str_eq x l)) [
  | inl same ↦
      rw ((str_eq_iff x l).0 same)
        (ground (arith, contains-missing_from known ls l, (str_eq_iff l l).1 refl))
  | inr other ↦ ground (arith, contains-missing_from known ls l)
]

-- `diffLabels` is exact: a label is added where it is new and not old, and removed where it is old and
-- not new.
pub diff_labels_lem :
    (old new_labels : List String) (l : String)
    → let (added, removed) = diff_labels old new_labels in
      (contains added l ≡ (contains new_labels l && not (contains old l)))
      × (contains removed l ≡ (contains old l && not (contains new_labels l)))
unfolding diff_labels
diff_labels_lem old new_labels l =
    (contains-missing_from old new_labels l, contains-missing_from new_labels old l)

contains-insert_sorted :
    (s : String) (ts : List String) (l : String)
    → contains (insert_sorted s ts) l ≡ contains (s ∷ ts) l
unfolding insert_sorted contains
contains-insert_sorted s [] l = refl
contains-insert_sorted s (t ∷ ts) l = ground (arith, contains-insert_sorted s ts l)

contains-sort_strings :
    (ls : List String) (l : String) → contains (sort_strings ls) l ≡ contains ls l
unfolding sort_strings contains
contains-sort_strings [] l = refl
contains-sort_strings (x ∷ ls) l =
    ground (arith, contains-insert_sorted x (sort_strings ls) l, contains-sort_strings ls l)

missing_from-nil :
    (known ls : List String)
    → ((l : String) → contains ls l ≡ true → contains known l ≡ true)
    → missing_from known ls ≡ []
unfolding missing_from contains
missing_from-nil known [] h = refl
missing_from-nil known (x ∷ ls) h =
    let here : contains known x ≡ true = h x (ground (arith, (str_eq_iff x x).1 refl)) in
    rw here (missing_from-nil known ls (λ l i. h l (ground arith)))

-- An issue that has not changed since its row was written raises no event: no label is seen as added or
-- removed, in whatever order the forge lists them.
pub issue_events-quiet :
    (to_lower : String → String) (repo : String) (iss : Issue)
    → issue_events repo iss (some (row_of to_lower iss)) ≡ []
unfolding issue_events row_of diff_labels
issue_events-quiet to_lower repo iss =
    let kept = contains-sort_strings iss.labels in
    rw
      (
        missing_from-nil (sort_strings iss.labels) iss.labels (λ l h. kept l ∙ h),
        missing_from-nil iss.labels (sort_strings iss.labels) (λ l h. sym (kept l) ∙ h),
      )
      refl
