-- ===== src/Dependency/Evaluate/Others.antt =====
-- An evaluation leaves the states of other issues alone (internal/dependency/dependency.go).
use workbuddy.Prelude.{
  ℕ, String, ◌≡◌, refl, ◌∙◌, Bool, false, ◌||◌, Option, List, [], ◌∷◌, if_ind, ◌==◌, arith, lookup,
  lookup-insert, nat_eq,
}
use workbuddy.Poller.{Issue}
use workbuddy.Dependency.{IssueDetails, IssueDependencyState}
use workbuddy.Dependency.Evaluate.{Evaluated, settle_state, evaluate_issue, evaluate_issues}

unfoldable pub has : ℕ → List ℕ → Bool
has n [] = false
has n (m ∷ ms) = m == n || has n ms

unfoldable pub issue_numbers : List (ℕ × Issue) → List ℕ
issue_numbers [] = []
issue_numbers ((n, i) ∷ is) = n ∷ issue_numbers is

-- The keys of a Go map.
abbrev pub AreKeys : List ℕ → Type 0
AreKeys [] = Unit
AreKeys (n ∷ ns) = (has n ns ≡ false) × AreKeys ns

settle_state-other :
    (logged : Bool) (num n : ℕ) (prev : Option IssueDependencyState) (s : IssueDependencyState)
    (e : Evaluated)
    → (num == n) ≡ false
    → lookup n (settle_state logged num prev s e).states ≡ lookup n e.states
unfolding settle_state
settle_state-other logged num n prev s e h = lookup-insert num n s e.states ∙ (rw h refl)

module _ (declared : String → Option (List String)) (repo : String) (graph_version : ℕ)
    (logged : Bool) (read : ℕ → Option IssueDetails) (cycles : List (ℕ × List String))
    (open_issues : List (ℕ × Issue)) where
  pub evaluate_issue-other :
      (num : ℕ) (issue : Issue) (e : Evaluated) (n : ℕ)
      → (num == n) ≡ false
      → lookup n
          (evaluate_issue declared repo graph_version logged read cycles open_issues num issue
            e).states
        ≡ lookup n e.states
  unfolding evaluate_issue
  evaluate_issue-other num issue e n h =
      if_ind (λ (t : Evaluated). lookup n t.states ≡ lookup n e.states) _ refl
        (settle_state-other logged num n _ _ _ h)

  pub evaluate_issues-other :
      (issues : List (ℕ × Issue)) (e : Evaluated) (n : ℕ)
      → has n (issue_numbers issues) ≡ false
      → lookup n
          (evaluate_issues declared repo graph_version logged read cycles open_issues issues
            e).states
        ≡ lookup n e.states
  unfolding evaluate_issues has issue_numbers
  evaluate_issues-other [] e n h = refl
  evaluate_issues-other ((num, issue) ∷ issues) e n h =
      evaluate_issues-other issues _ n (ground (arith, h))
      ∙ evaluate_issue-other num issue e n (ground (arith, h))
