-- ===== src/Dependency/Evaluate/Outcome.antt =====
-- The verdicts that an evaluation records (internal/dependency/dependency.go, EvaluateOpenIssues).
use workbuddy.Prelude.{
  ℕ, String, ◌≡◌, refl, sym, subst, ◌∙◌, inl, inr, Bool, true, ◌||◌, Option, none, some, List, [],
  ◌∷◌, if◌then◌else◌, if_ind, Bool-cases, ◌==◌, ==_iff, arith, lookup, lookup-insert, nat_eq,
}
use workbuddy.Poller.{Issue}
use workbuddy.Dependency.{
  DependencyVerdict, ready, blocked, override, needs_human, IssueDetails, IssueDependencyState,
  build_resolve_result, has_label, override_label,
}
use workbuddy.Dependency.Cycles.{detect_cycles}
use workbuddy.Dependency.Refs.{parse_declaration}
use workbuddy.Dependency.Refs.Normal.{parse_declaration-IsLocal}
use workbuddy.Dependency.Verdicts.{
  IsAsRead, is_cyclic, some_stuck, some_holding, build_resolve_result-verdict,
}
use workbuddy.Dependency.Evaluate.{
  CachedIssue, open_issues_of, parsed_declaration, graph_of, keep_resume_label, Evaluated,
  settle_state, evaluate_issue, evaluate_issues, evaluate_open_issues, path_of,
}
use workbuddy.Dependency.Evaluate.Others.{issue_numbers, AreKeys, evaluate_issues-other}

-- The verdict that the issue ought to have.
unfoldable pub due_verdict :
    (declared : String → Option (List String))
    → (repo : String) → (ℕ → Option IssueDetails)
    → (cycles : List (ℕ × List String)) → List (ℕ × Issue)
    → ℕ
    → Issue
    → DependencyVerdict
due_verdict declared repo read cycles open_issues num issue =
    let deps = parse_declaration repo (declared issue.body) in
    if has_label issue.labels override_label
    then override
    else if is_cyclic (path_of (lookup num cycles)) || some_stuck open_issues read deps
    then needs_human
    else if some_holding open_issues read deps
    then blocked
    else ready

keep_resume_label-verdict :
    (prev : Option IssueDependencyState) (s : IssueDependencyState)
    → (keep_resume_label prev s).verdict ≡ s.verdict
unfolding keep_resume_label
keep_resume_label-verdict none s = refl
keep_resume_label-verdict (some p) s = ground arith

module _ (declared : String → Option (List String)) (repo : String) (graph_version : ℕ)
    (logged : Bool) (read : ℕ → Option IssueDetails) (cycles : List (ℕ × List String))
    (open_issues : List (ℕ × Issue)) where
  evaluate_issue-IsAsRead :
      (num : ℕ) (issue : Issue) (e : Evaluated)
      → IsAsRead read e.closed_cache
      → IsAsRead read
          (evaluate_issue declared repo graph_version logged read cycles open_issues num issue
            e).closed_cache
  unfolding evaluate_issue parsed_declaration settle_state
  evaluate_issue-IsAsRead num issue e c =
      let deps = parse_declaration repo (declared issue.body) in
      let built =
        build_resolve_result-verdict repo issue deps graph_version (path_of (lookup num cycles))
          open_issues e.closed_cache read (parse_declaration-IsLocal repo (declared issue.body))
          c in
      if_ind (λ (t : Evaluated). IsAsRead read t.closed_cache) _ built.1 built.1

  evaluate_issue-due :
      (num : ℕ) (issue : Issue) (e : Evaluated)
      → IsAsRead read e.closed_cache
      → (parsed_declaration declared repo issue.body).has_block ≡ true
      → (s : IssueDependencyState) × (lookup num
            (evaluate_issue declared repo graph_version logged read cycles open_issues num issue
              e).states
          ≡ some s)
        × (s.verdict ≡ due_verdict declared repo read cycles open_issues num issue)
  unfolding evaluate_issue parsed_declaration settle_state due_verdict
  evaluate_issue-due num issue e c h =
      let deps = parse_declaration repo (declared issue.body) in
      let built =
        build_resolve_result-verdict repo issue deps graph_version (path_of (lookup num cycles))
          open_issues e.closed_cache read (parse_declaration-IsLocal repo (declared issue.body))
          c in
      let result =
        (build_resolve_result repo issue deps graph_version (path_of (lookup num cycles))
          open_issues e.closed_cache read).0 in
      let s = keep_resume_label (lookup num e.states) result in
      rw h (
        s,
        lookup-insert num num s e.states ∙ (rw ((==_iff num num).1 refl) refl),
        keep_resume_label-verdict (lookup num e.states) result ∙ built.0,
      )

  evaluate_issues-due :
      (issues : List (ℕ × Issue)) (e : Evaluated) (num : ℕ) (issue : Issue)
      → AreKeys (issue_numbers issues)
      → IsAsRead read e.closed_cache
      → lookup num issues ≡ some issue
      → (parsed_declaration declared repo issue.body).has_block ≡ true
      → (s : IssueDependencyState) × (lookup num
            (evaluate_issues declared repo graph_version logged read cycles open_issues issues
              e).states
          ≡ some s)
        × (s.verdict ≡ due_verdict declared repo read cycles open_issues num issue)
  unfolding evaluate_issues issue_numbers lookup
  evaluate_issues-due [] e num issue k c l b = absurd (ground (arith, l))
  evaluate_issues-due ((m, i) ∷ issues) e num issue (k, ks) c l b =
      let t = evaluate_issue declared repo graph_version logged read cycles open_issues m i e in
      elim (Bool-cases (m == num)) [
        | inl q ↦
            let same : m ≡ num = (==_iff m num).0 q in
            let found : i ≡ issue = ground (arith, l, q) in
            let (s, at, v) = evaluate_issue-due m i e c (
              subst (λ j. (parsed_declaration declared repo j.body).has_block ≡ true) (sym found)
                b) in
            let here =
              evaluate_issues-other declared repo graph_version logged read cycles open_issues
                issues t m k in
            (
              s,
              subst
                  (λ n.
                    lookup n
                      (evaluate_issues declared repo graph_version logged read cycles open_issues
                        issues t).states
                    ≡ some s)
                  same (here ∙ at),
              v ∙ (λ j. due_verdict declared repo read cycles open_issues (same j) (found j)),
            )
        | inr q ↦
            evaluate_issues-due issues t num issue ks (evaluate_issue-IsAsRead m i e c)
              (ground (arith, l, q)) b
      ]

-- Where the issues' numbers are distinct, an evaluation records for every open issue that declares
-- dependencies the verdict it ought to have, whatever was recorded before and in whatever order the issues
-- are taken: override under the override label; else needs_human where it is on a reported cycle or one of its
-- references is refused or cannot be read as closed; else blocked where one is open without status:done, or
-- closed otherwise than by a linked pull request; else ready.
pub evaluate_open_issues-due :
    (declared : String → Option (List String)) (repo : String) (graph_version : ℕ) (logged : Bool)
    (read : ℕ → Option IssueDetails) (cached : List (ℕ × CachedIssue))
    (states : List (ℕ × IssueDependencyState)) (num : ℕ) (issue : Issue)
    → AreKeys (issue_numbers (open_issues_of cached))
    → lookup num (open_issues_of cached) ≡ some issue
    → (parsed_declaration declared repo issue.body).has_block ≡ true
    → (s : IssueDependencyState) × (lookup num
          (evaluate_open_issues declared repo graph_version logged read cached states).states
        ≡ some s)
      × (s.verdict
          ≡ due_verdict declared repo read
              (detect_cycles (graph_of declared repo (open_issues_of cached)))
              (open_issues_of cached)
              num
              issue)
unfolding evaluate_open_issues
evaluate_open_issues-due declared repo graph_version logged read cached states num issue k l b =
    evaluate_issues-due declared repo graph_version logged read
      (detect_cycles (graph_of declared repo (open_issues_of cached))) (open_issues_of cached)
      (open_issues_of cached) (record { states = states; closed_cache = []; unblocked = [] }) num
      issue k (λ n d h. absurd (unfold lookup in (ground (arith, h)))) l b
