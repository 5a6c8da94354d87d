-- ===== src/Dependency/Reasons.antt =====
-- The reasons that go with a verdict (internal/dependency/dependency.go, buildResolveResult).
use workbuddy.Prelude.{
  ℕ, String, ◌≡◌, ◌≢◌, ◌↔◌, refl, inl, inr, false, ◌&&◌, Option, none, some, List, [], ◌∷◌, ◌++◌,
  str_eq, if_ind, Bool-cases, arith, nat_eq,
}
use workbuddy.Poller.{Issue}
use workbuddy.Dependency.{
  DependencyStatus, active, unsupported_cross_repo, invalid, removed, DependencyVerdict, ready,
  blocked, override, needs_human, ParsedDependency, IssueDetails, override_label, has_label,
  OpenStatus, done, failed, open_still, classify_open_dependency, Resolving, hold, blocked_for,
  human_for, judge_open, judge_detail, remember, fetch_closed, judge_closed, judge_active, judge,
  judge_all, start_resolving, build_resolve_result,
}

-- The verdict is ready exactly as long as there is no reason against it.
abbrev IsExplained : Resolving → Type 0
IsExplained r = (r.verdict ≡ ready) ↔ (r.reasons ≡ [])

append-nonempty : (xs : List String) (x : String) → xs ++ x ∷ [] ≢ []
append-nonempty [] x h = ground (arith, h)
append-nonempty (y ∷ xs) x h = ground (arith, h)

hold_lem : (v : DependencyVerdict) → hold v ≢ ready
unfolding hold
hold_lem ready h = ground (arith, h)
hold_lem blocked h = ground (arith, h)
hold_lem override h = ground (arith, h)
hold_lem needs_human h = ground (arith, h)

blocked_for-IsExplained : (reason : String) (r : Resolving) → IsExplained (blocked_for reason r)
unfolding blocked_for
blocked_for-IsExplained reason r =
    (λ h. absurd (hold_lem r.verdict h), λ h. absurd (append-nonempty r.reasons reason h))

human_for-IsExplained : (reason : String) (r : Resolving) → IsExplained (human_for reason r)
unfolding human_for
human_for-IsExplained reason r =
    (λ h. absurd (ground (arith, h)), λ h. absurd (append-nonempty r.reasons reason h))

judge_open-IsExplained :
    (dep : ParsedDependency) (o : OpenStatus) (r : Resolving)
    → IsExplained r
    → IsExplained (judge_open dep o r)
unfolding judge_open
judge_open-IsExplained dep done r h = h
judge_open-IsExplained dep failed r h = blocked_for-IsExplained _ r
judge_open-IsExplained dep open_still r h = blocked_for-IsExplained _ r

judge_detail-IsExplained :
    (dep : ParsedDependency) (o : Option IssueDetails) (r : Resolving)
    → IsExplained r
    → IsExplained (judge_detail dep o r)
unfolding judge_detail
judge_detail-IsExplained dep none r h = human_for-IsExplained _ r
judge_detail-IsExplained dep (some d) r h =
    if_ind IsExplained (str_eq d.state "closed" && d.closed_by_linked_pr) h (
      if_ind IsExplained (str_eq d.state "closed") (blocked_for-IsExplained _ r)
        (human_for-IsExplained _ r))

remember-IsExplained :
    (n : ℕ) (o : Option IssueDetails) (r : Resolving) → IsExplained r → IsExplained (remember n o r)
unfolding remember
remember-IsExplained n none r h = h
remember-IsExplained n (some d) r h = h

module _ (repo : String) (open_issues : List (ℕ × Issue)) (read : ℕ → Option IssueDetails) where
  fetched-IsExplained :
      (dep : ParsedDependency) (o : Option IssueDetails) (r : Resolving)
      → IsExplained r
      → IsExplained
          (let (detail, r') = fetch_closed repo read dep o r in judge_detail dep detail r')
  unfolding fetch_closed
  fetched-IsExplained dep (some d) r h = judge_detail-IsExplained dep (some d) r h
  fetched-IsExplained dep none r h = elim (Bool-cases (str_eq dep.repo repo)) [
    | inl e ↦ rw e (
        judge_detail-IsExplained dep (read dep.issue_num) _
          (remember-IsExplained dep.issue_num (read dep.issue_num) r h))
    | inr e ↦ rw e (judge_detail-IsExplained dep none r h)
  ]

  judge_active-IsExplained :
      (dep : ParsedDependency) (o : Option Issue) (r : Resolving)
      → IsExplained r
      → IsExplained (judge_active repo read dep o r)
  unfolding judge_active judge_closed
  judge_active-IsExplained dep none r h = fetched-IsExplained dep _ r h
  judge_active-IsExplained dep (some i) r h =
      if_ind IsExplained (str_eq dep.repo repo)
        (judge_open-IsExplained dep (classify_open_dependency i.labels) r h)
        (fetched-IsExplained dep _ r h)

  judge-IsExplained :
      (st : DependencyStatus) (dep : ParsedDependency) (r : Resolving)
      → IsExplained r
      → IsExplained (judge repo open_issues read st dep r)
  unfolding judge
  judge-IsExplained active dep r h = judge_active-IsExplained dep _ r h
  judge-IsExplained removed dep r h = judge_active-IsExplained dep _ r h
  judge-IsExplained unsupported_cross_repo dep r h = human_for-IsExplained _ r
  judge-IsExplained invalid dep r h = human_for-IsExplained _ r

  judge_all-IsExplained :
      (deps : List ParsedDependency) (r : Resolving)
      → IsExplained r
      → IsExplained (judge_all repo open_issues read deps r)
  unfolding judge_all
  judge_all-IsExplained [] r h = h
  judge_all-IsExplained (d ∷ deps) r h =
      judge_all-IsExplained deps _ (judge-IsExplained d.status d r h)

start-IsExplained :
    (path : List String) (cache : List (ℕ × IssueDetails))
    → IsExplained (start_resolving path cache)
unfolding start_resolving
start-IsExplained [] cache = ((λ h. refl), (λ h. refl))
start-IsExplained (n ∷ path) cache =
    (λ h. absurd (ground (arith, h)), λ h. absurd (ground (arith, h)))

-- Without the override label, the verdict on an issue is ready exactly when no reason against it is
-- recorded, whatever the dependencies and the cache.
build_resolve_result-reasons :
    (repo : String) (issue : Issue) (deps : List ParsedDependency) (graph_version : ℕ)
    (path : List String) (open_issues : List (ℕ × Issue)) (cache : List (ℕ × IssueDetails))
    (read : ℕ → Option IssueDetails)
    → has_label issue.labels override_label ≡ false
    → ((build_resolve_result repo issue deps graph_version path open_issues cache read).0.verdict
        ≡ ready)
      ↔ ((build_resolve_result repo issue deps graph_version path open_issues cache read).0.reasons
          ≡ [])
unfolding build_resolve_result
build_resolve_result-reasons repo issue deps graph_version path open_issues cache read o =
    rw o (judge_all-IsExplained repo open_issues read deps _ (start-IsExplained path cache))
