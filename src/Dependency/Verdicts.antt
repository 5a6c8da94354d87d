-- ===== src/Dependency/Verdicts.antt =====
-- What the verdict on an issue says of its dependencies (internal/dependency/dependency.go).
use workbuddy.Prelude.{
  ℕ, String, ◌≡◌, refl, sym, ap, subst, ◌∙◌, inl, inr, ◌⊎◌, Bool, true, false, not, ◌||◌, Option,
  none, some, List, [], ◌∷◌, if◌then◌else◌, str_eq, any, All, Bool-cases, arith, lookup,
  lookup-insert, nat_eq, ==_iff, ◌==◌,
}
use workbuddy.Poller.{Issue}
use workbuddy.Dependency.{
  DependencyStatus, active, unsupported_cross_repo, invalid, removed, DependencyVerdict, ready,
  blocked, override, needs_human, ParsedDependency, IssueDetails, override_label, has_label,
  OpenStatus, done, failed, open_still, classify_open_dependency, Resolving, hold, blocked_for,
  human_for, judge_open, judge_detail, remember, fetch_closed, judge_closed, judge_active, judge,
  judge_all, start_resolving, build_resolve_result,
}

-- How one dependency stands, by its declaration, the open issues and the forge.
pub data Standing : Type 0 where
  fulfilled holding stuck : Standing

abbrev of_open : OpenStatus → Standing
of_open done = fulfilled
of_open failed = holding
of_open open_still = holding

abbrev of_details : Option IssueDetails → Standing
of_details none = stuck
of_details (some d) =
    if not (str_eq d.state "closed")
    then stuck
    else if d.closed_by_linked_pr
    then fulfilled
    else holding

abbrev of_found : (ℕ → Option IssueDetails) → ℕ → Option Issue → Standing
of_found read n none = of_details (read n)
of_found read n (some i) = of_open (classify_open_dependency i.labels)

abbrev of_status : List (ℕ × Issue) → (ℕ → Option IssueDetails) → DependencyStatus → ℕ → Standing
of_status open_issues read active n = of_found read n (lookup n open_issues)
of_status open_issues read removed n = of_found read n (lookup n open_issues)
of_status open_issues read _ n = stuck

unfoldable pub standing : List (ℕ × Issue) → (ℕ → Option IssueDetails) → ParsedDependency → Standing
standing open_issues read dep = of_status open_issues read dep.status dep.issue_num

unfoldable pub is_stuck : Standing → Bool
is_stuck stuck = true
is_stuck _ = false

unfoldable pub is_holding : Standing → Bool
is_holding holding = true
is_holding _ = false

unfoldable pub some_stuck :
    List (ℕ × Issue) → (ℕ → Option IssueDetails) → List ParsedDependency → Bool
some_stuck open_issues read deps = any (λ d. is_stuck (standing open_issues read d)) deps

unfoldable pub some_holding :
    List (ℕ × Issue) → (ℕ → Option IssueDetails) → List ParsedDependency → Bool
some_holding open_issues read deps = any (λ d. is_holding (standing open_issues read d)) deps

-- A dependency that is not refused is one of the repository itself.
abbrev pub IsLocal : String → ParsedDependency → Type 0
IsLocal repo dep =
    (dep.status ≡ unsupported_cross_repo) ⊎ (dep.status ≡ invalid) ⊎ (str_eq dep.repo repo ≡ true)

-- The cache holds what the forge answers.
abbrev pub IsAsRead : (ℕ → Option IssueDetails) → List (ℕ × IssueDetails) → Type 0
IsAsRead read cache = (n : ℕ) (d : IssueDetails) → lookup n cache ≡ some d → read n ≡ some d

abbrev settle : DependencyVerdict → (any_stuck any_holding : Bool) → DependencyVerdict
settle v s h = if s then needs_human else if h then hold v else v

settle_twice :
    (v : DependencyVerdict) (s h s' h' : Bool)
    → settle (settle v s h) s' h' ≡ settle v (s || s') (h || h')
unfolding hold
settle_twice v s h s' h' = ground arith

-- What a step must have done to the verdict, and to the cache.
abbrev Judged : (ℕ → Option IssueDetails) → Resolving → Standing → Resolving → Type 0
Judged read r s t =
    (t.verdict ≡ settle r.verdict (is_stuck s) (is_holding s)) × IsAsRead read t.closed_cache

judge_open-Judged :
    (read : ℕ → Option IssueDetails) (dep : ParsedDependency) (o : OpenStatus) (r : Resolving)
    → IsAsRead read r.closed_cache
    → Judged read r (of_open o) (judge_open dep o r)
unfolding judge_open blocked_for is_stuck is_holding
judge_open-Judged read dep done r c = (refl, c)
judge_open-Judged read dep failed r c = (refl, c)
judge_open-Judged read dep open_still r c = (refl, c)

judge_detail-Judged :
    (read : ℕ → Option IssueDetails) (dep : ParsedDependency) (d : Option IssueDetails)
    (r : Resolving)
    → IsAsRead read r.closed_cache
    → Judged read r (of_details d) (judge_detail dep d r)
unfolding judge_detail blocked_for human_for is_stuck is_holding
judge_detail-Judged read dep none r c = (refl, c)
judge_detail-Judged read dep (some d) r c = elim (Bool-cases (str_eq d.state "closed")) [
  | inr e ↦ rw e (refl, c)
  | inl e ↦ elim (Bool-cases d.closed_by_linked_pr) [
    | inl l ↦ rw (e, l) (refl, c)
    | inr l ↦ rw (e, l) (refl, c)
  ]
]

remember-IsAsRead :
    (read : ℕ → Option IssueDetails) (n : ℕ) (o : Option IssueDetails) (r : Resolving)
    → read n ≡ o
    → IsAsRead read r.closed_cache
    → IsAsRead read (remember n o r).closed_cache
unfolding remember
remember-IsAsRead read n none r e c = c
remember-IsAsRead read n (some d) r e c = λ m d' h. elim (Bool-cases (n == m)) [
  | inl q ↦ ground (arith, lookup-insert n m d r.closed_cache, h, q, e, ap read ((==_iff n m).0 q))
  | inr q ↦ c m d' (ground (arith, lookup-insert n m d r.closed_cache, h, q))
]

remember-verdict :
    (n : ℕ) (o : Option IssueDetails) (r : Resolving) → (remember n o r).verdict ≡ r.verdict
unfolding remember
remember-verdict n none r = refl
remember-verdict n (some d) r = refl

fetched-Judged :
    (repo : String) (read : ℕ → Option IssueDetails) (dep : ParsedDependency)
    (o : Option IssueDetails) (r : Resolving)
    → str_eq dep.repo repo ≡ true
    → lookup dep.issue_num r.closed_cache ≡ o
    → IsAsRead read r.closed_cache
    → Judged read r
        (of_details (read dep.issue_num))
        (let (detail, r') = fetch_closed repo read dep o r in judge_detail dep detail r')
unfolding fetch_closed
fetched-Judged repo read dep (some d) r l e c =
    rw (c dep.issue_num d e) (judge_detail-Judged read dep (some d) r c)
fetched-Judged repo read dep none r l e c =
    let r' = remember dep.issue_num (read dep.issue_num) r in
    let (v, c') =
      judge_detail-Judged read dep (read dep.issue_num) r'
        (remember-IsAsRead read dep.issue_num (read dep.issue_num) r refl c) in
    rw l (
      (v
          ∙ ap
              (λ (w : DependencyVerdict).
                settle w (is_stuck (of_details (read dep.issue_num)))
                  (is_holding (of_details (read dep.issue_num))))
              (remember-verdict dep.issue_num (read dep.issue_num) r)),
      c',
    )

judge_active-Judged :
    (repo : String) (read : ℕ → Option IssueDetails) (dep : ParsedDependency) (o : Option Issue)
    (r : Resolving)
    → str_eq dep.repo repo ≡ true
    → IsAsRead read r.closed_cache
    → Judged read r (of_found read dep.issue_num o) (judge_active repo read dep o r)
unfolding judge_active judge_closed
judge_active-Judged repo read dep none r l c = fetched-Judged repo read dep _ r l refl c
judge_active-Judged repo read dep (some i) r l c =
    rw l (judge_open-Judged read dep (classify_open_dependency i.labels) r c)

module _ (repo : String) (open_issues : List (ℕ × Issue)) (read : ℕ → Option IssueDetails) where
  judge-Judged :
      (st : DependencyStatus) (dep : ParsedDependency) (r : Resolving)
      → (st ≡ unsupported_cross_repo) ⊎ (st ≡ invalid) ⊎ (str_eq dep.repo repo ≡ true)
      → IsAsRead read r.closed_cache
      → Judged read r
          (of_status open_issues read st dep.issue_num)
          (judge repo open_issues read st dep r)
  unfolding judge human_for is_stuck is_holding
  judge-Judged active dep r l c =
      judge_active-Judged repo read dep (lookup dep.issue_num open_issues) r (ground (arith, l)) c
  judge-Judged unsupported_cross_repo dep r l c = (refl, c)
  judge-Judged invalid dep r l c = (refl, c)
  judge-Judged removed dep r l c =
      judge_active-Judged repo read dep (lookup dep.issue_num open_issues) r (ground (arith, l)) c

  judge_all-Judged :
      (deps : List ParsedDependency) (r : Resolving)
      → All (IsLocal repo) deps
      → IsAsRead read r.closed_cache
      → ((judge_all repo open_issues read deps r).verdict
          ≡ settle r.verdict
              (some_stuck open_issues read deps)
              (some_holding open_issues read deps))
        × IsAsRead read (judge_all repo open_issues read deps r).closed_cache
  unfolding judge_all any standing some_stuck some_holding
  judge_all-Judged [] r l c = (refl, c)
  judge_all-Judged (d ∷ deps) r (l, ls) c =
      let (v, c') = judge-Judged d.status d r l c in
      let (w, c'') = judge_all-Judged deps (judge repo open_issues read d.status d r) ls c' in
      let s = some_stuck open_issues read deps in
      let h = some_holding open_issues read deps in
      (
        w
            ∙ (ap (λ (x : DependencyVerdict). settle x s h) v
                ∙ settle_twice r.verdict (is_stuck (standing open_issues read d))
                    (is_holding (standing open_issues read d)) s h),
        c'',
      )

abbrev pub is_cyclic : List String → Bool
is_cyclic [] = false
is_cyclic (_ ∷ _) = true

start_resolving_lem :
    (path : List String) (cache : List (ℕ × IssueDetails)) (s h : Bool)
    → settle (start_resolving path cache).verdict s h
      ≡ (if is_cyclic path || s then needs_human else if h then blocked else ready)
unfolding start_resolving hold
start_resolving_lem [] cache s h = ground arith
start_resolving_lem (n ∷ path) cache s h = ground arith

start_resolving-cache :
    (path : List String) (cache : List (ℕ × IssueDetails))
    → (start_resolving path cache).closed_cache ≡ cache
unfolding start_resolving
start_resolving-cache [] cache = refl
start_resolving-cache (n ∷ path) cache = refl

-- The verdict on an issue whose dependencies are refused or of its own repository, where the cache holds
-- what the forge answers: the override label wins; else a human is needed where the issue is on a cycle or a
-- dependency is refused or cannot be read as closed; else it is blocked where an open dependency does not
-- carry status:done or a closed one was not closed by a linked pull request; else it is ready. The cache
-- still holds what the forge answers.
pub build_resolve_result-verdict :
    (repo : String) (issue : Issue) (deps : List ParsedDependency) (graph_version : ℕ)
    (path : List String) (open_issues : List (ℕ × Issue)) (cache : List (ℕ × IssueDetails))
    (read : ℕ → Option IssueDetails)
    → All (IsLocal repo) deps
    → IsAsRead read cache
    → ((build_resolve_result repo issue deps graph_version path open_issues cache read).0.verdict
        ≡ (if has_label issue.labels override_label
            then override
            else if is_cyclic path || some_stuck open_issues read deps
            then needs_human
            else if some_holding open_issues read deps
            then blocked
            else ready))
      × IsAsRead read
          (build_resolve_result repo issue deps graph_version path open_issues cache read).1
unfolding build_resolve_result
build_resolve_result-verdict repo issue deps graph_version path open_issues cache read l c =
    let (v, c') =
      judge_all-Judged repo open_issues read deps (start_resolving path cache) l
        (subst (IsAsRead read) (sym (start_resolving-cache path cache)) c) in
    (
      ap (λ (x : DependencyVerdict). if has_label issue.labels override_label then override else x)
          (v ∙ start_resolving_lem path cache _ _),
      c',
    )
