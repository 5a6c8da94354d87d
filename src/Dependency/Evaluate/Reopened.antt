-- ===== src/Dependency/Evaluate/Reopened.antt =====
-- Which issues an evaluation reports as unblocked (internal/dependency/dependency.go, EvaluateOpenIssues).
use workbuddy.Prelude.{
  ℕ, String, ◌≡◌, refl, ap, subst, ◌∙◌, inl, inr, Bool, true, false, not, ◌&&◌, ◌||◌, Option, none,
  some, List, [], ◌∷◌, ◌++◌, if◌then◌else◌, if_ind, Bool-cases, ◌==◌, ==_iff, arith, lookup,
  lookup-insert, nat_eq,
}
use workbuddy.Poller.{Issue}
use workbuddy.Dependency.{
  is_blocked, DependencyVerdict, IssueDetails, IssueDependencyState, build_resolve_result,
}
use workbuddy.Dependency.Cycles.{detect_cycles}
use workbuddy.Dependency.Evaluate.{
  CachedIssue, open_issues_of, parsed_declaration, graph_of, same_verdict, verdict_changed, gates,
  gated, opens, keep_resume_label, Evaluated, settle_state, evaluate_issue, evaluate_issues,
  evaluate_open_issues, path_of,
}
use workbuddy.Dependency.Evaluate.Others.{
  has, issue_numbers, AreKeys, evaluate_issue-other, evaluate_issues-other,
}

has-append : (n m : ℕ) (ns : List ℕ) → has n (ns ++ m ∷ []) ≡ (has n ns || m == n)
unfolding has
has-append n m [] = ground arith
has-append n m (k ∷ ns) = ground (arith, has-append n m ns)

reopening_changed :
    (prev : Option IssueDependencyState) (s : IssueDependencyState)
    → (gated prev && opens s.verdict) ≡ (gated prev && not (gates s.verdict))
unfolding gated opens gates
reopening_changed none s = refl
reopening_changed (some p) s = ground arith

changed :
    (prev : Option IssueDependencyState) (s : IssueDependencyState)
    → gated prev ≡ true
    → opens s.verdict ≡ true
    → verdict_changed prev s ≡ true
unfolding gated opens gates verdict_changed same_verdict
changed none s g o = absurd (ground (arith, g))
changed (some p) s g o = ground (arith, g, o)

resume-verdict :
    (prev : Option IssueDependencyState) (s : IssueDependencyState)
    → (keep_resume_label prev s).verdict ≡ s.verdict
unfolding keep_resume_label
resume-verdict none s = refl
resume-verdict (some p) s = ground arith

-- What a step must have done about the issue `num`.
abbrev Steps : ℕ → Evaluated → Evaluated → Type 0
Steps num e t =
    (n : ℕ)
    → has n t.unblocked ≡ (
        has n e.unblocked
        || (num == n && (gated (lookup n e.states) && not (gated (lookup n t.states)))))

told :
    (prev : Option IssueDependencyState) (s : IssueDependencyState)
    → ((verdict_changed prev s && true) && (gated prev && opens s.verdict))
      ≡ (gated prev && not (gates s.verdict))
told prev s = ground (arith, reopening_changed prev s, changed prev s)

has-if :
    (b : Bool) (n num : ℕ) (ns : List ℕ)
    → has n (if b then ns ++ num ∷ [] else ns) ≡ (has n ns || (num == n && b))
has-if true n num ns = has-append n num ns ∙ ground arith
has-if false n num ns = ground arith

settle_state-Steps :
    (num : ℕ) (s : IssueDependencyState) (e : Evaluated)
    → Steps num e (settle_state true num (lookup num e.states) s e)
unfolding settle_state
settle_state-Steps num s e n = rw (told (lookup num e.states) s) (
    has-if (gated (lookup num e.states) && not (gates s.verdict)) n num e.unblocked
    ∙ rw (lookup-insert num n s e.states) (elim (Bool-cases (num == n)) [
      | inl q ↦ rw (q, (==_iff num n).0 q) (unfold gated in refl)
      | inr q ↦ rw q refl
    ]))

unstated-Steps :
    (num : ℕ) (e : Evaluated) (cache : List (ℕ × IssueDetails))
    → Steps num e (record e { closed_cache = cache })
unstated-Steps num e cache n = ground arith

module _ (declared : String → Option (List String)) (repo : String) (graph_version : ℕ)
    (read : ℕ → Option IssueDetails) (cycles : List (ℕ × List String))
    (open_issues : List (ℕ × Issue)) where
  evaluate_issue-Steps :
      (num : ℕ) (issue : Issue) (e : Evaluated)
      → Steps num e
          (evaluate_issue declared repo graph_version true read cycles open_issues num issue e)
  unfolding evaluate_issue
  evaluate_issue-Steps num issue e =
      let deps = (parsed_declaration declared repo issue.body).dependencies in
      let cache =
        (build_resolve_result repo issue deps graph_version (path_of (lookup num cycles))
          open_issues e.closed_cache read).1 in
      if_ind (Steps num e) _ (unstated-Steps num e cache)
        (settle_state-Steps num _ (record e { closed_cache = cache }))

  evaluate_issues-unblocked :
      (issues : List (ℕ × Issue)) (e : Evaluated)
      → AreKeys (issue_numbers issues)
      → (n : ℕ)
      → has n
          (evaluate_issues declared repo graph_version true read cycles open_issues issues
            e).unblocked
        ≡ (has n e.unblocked
            || (gated (lookup n e.states)
                && not (
                    gated (
                      lookup n
                        (evaluate_issues declared repo graph_version true read cycles open_issues
                          issues e).states))))
  unfolding evaluate_issues issue_numbers
  evaluate_issues-unblocked [] e k n = ground arith
  evaluate_issues-unblocked ((num, issue) ∷ issues) e (k, ks) n =
      let t = evaluate_issue declared repo graph_version true read cycles open_issues num issue e in
      let told_of = evaluate_issue-Steps num issue e in
      let rest = evaluate_issues-unblocked issues t ks n in
      elim (Bool-cases (num == n)) [
        | inl q ↦
            let last =
              evaluate_issues-other declared repo graph_version true read cycles open_issues issues
                t n (subst (λ m. has m (issue_numbers issues) ≡ false) ((==_iff num n).0 q) k) in
            ground (arith, rest, told_of n, q, ap gated last)
        | inr q ↦ ground (
          arith,
          rest,
          told_of n,
          q,
          ap gated (
              evaluate_issue-other declared repo graph_version true read cycles open_issues num
                issue e n q),
        )
      ]

-- What the gate of a dispatch says of a recorded state that can be read.
unfoldable pub gate_blocks : Option (Bool × Option DependencyVerdict) → Bool
gate_blocks none = false
gate_blocks (some (b, v)) = b

gate_blocks-gated : (o : Option IssueDependencyState) → gate_blocks (is_blocked (some o)) ≡ gated o
unfolding gate_blocks is_blocked gated gates
gate_blocks-gated none = refl
gate_blocks-gated (some s) = ground arith

-- With an event log, and the issues' numbers distinct: an issue is reported as unblocked exactly when the
-- dispatch gate, by its recorded state, blocked it before the evaluation and does not afterwards.
pub evaluate_open_issues-unblocked :
    (declared : String → Option (List String)) (repo : String) (graph_version : ℕ)
    (read : ℕ → Option IssueDetails) (cached : List (ℕ × CachedIssue))
    (states : List (ℕ × IssueDependencyState))
    → AreKeys (issue_numbers (open_issues_of cached))
    → (n : ℕ)
    → has n (evaluate_open_issues declared repo graph_version true read cached states).unblocked ≡ (
        gate_blocks (is_blocked (some (lookup n states)))
        && not (
            gate_blocks (
              is_blocked (
                some (
                  lookup n
                    (evaluate_open_issues declared repo graph_version true read cached
                      states).states)))))
evaluate_open_issues-unblocked declared repo graph_version read cached states k n =
    rw
      (
        gate_blocks-gated (lookup n states),
        gate_blocks-gated (
            lookup n
              (evaluate_open_issues declared repo graph_version true read cached states).states),
      )
      (unfold evaluate_open_issues gated has in
        (evaluate_issues-unblocked declared repo graph_version read
          (detect_cycles (graph_of declared repo (open_issues_of cached))) (open_issues_of cached)
          (open_issues_of cached) (record { states = states; closed_cache = []; unblocked = [] }) k
          n))
