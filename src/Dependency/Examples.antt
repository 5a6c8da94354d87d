-- ===== src/Dependency/Examples.antt =====
-- The dependency gate at concrete inputs.
use workbuddy.Prelude.{
  ℕ, String, ◌≡◌, ◌≢◌, ◌↔◌, refl, true, false, not, ◌&&◌, Option, none, some, List, [], ◌∷◌, ◌==◌,
  itoa, digits, concat, str_eq, if◌then◌else◌, lookup, insert, nat_eq, arith,
}
use workbuddy.Dependency.{is_blocked, blocked, IssueDetails, IssueDependencyState, active}
use workbuddy.Dependency.Cycles.{
  fresh_search, visit_keys, sort_ints, keys, Graph, deps_of, color_of, next_of, color_in, drop_to,
  or_else, extract_cycle_path, format_cycle, report, drop_last, enter, leave, close_cycle, meet,
  each_next, visit, insert_int, sort_ints, keys, visit_white, visit_keys, detect_cycles,
}
use workbuddy.Dependency.Cycles.Walks.{IsCycle}
use workbuddy.Dependency.Cycles.Real.{IsReport, detect_cycles-IsReport}
use workbuddy.Dependency.Cycles.Complete.{detect_cycles-IsCycle}
use workbuddy.Dependency.Refs.{normalize_dependency, accepted}
use workbuddy.Dependency.Refs.Normal.{IsNormal, normalize_dependency-IsNormal}
use workbuddy.Dependency.Refs.Printed.{normalize_dependency-itoa}
use workbuddy.Dependency.Evaluate.{
  CachedIssue, open_issue, open_issues_of, graph_of, evaluate_open_issues, parsed_declaration,
}
use workbuddy.Dependency.Evaluate.Others.{has, issue_numbers, AreKeys}
use workbuddy.Dependency.Evaluate.Reopened.{gate_blocks, evaluate_open_issues-unblocked}
use workbuddy.Dependency.Evaluate.Outcome.{due_verdict, evaluate_open_issues-due}

-- 1 and 2 wait for each other, and 3 waits for 1.
abbrev ring : Graph
ring = (1, 2 ∷ []) ∷ (2, 1 ∷ []) ∷ (3, 1 ∷ []) ∷ []

ring_reported : lookup 1 (detect_cycles ring) ≡ some ("#1" ∷ "#2" ∷ "#1" ∷ [])
unfolding detect_cycles visit_keys visit_white sort_ints insert_int keys visit each_next meet
    close_cycle leave enter drop_last report format_cycle extract_cycle_path or_else drop_to
    color_in next_of color_of deps_of lookup insert itoa digits concat
ring_reported = refl

detect_cycles-IsReport_example : IsReport ring 1 ("#1" ∷ "#2" ∷ "#1" ∷ [])
detect_cycles-IsReport_example =
    detect_cycles-IsReport ring 1 ("#1" ∷ "#2" ∷ "#1" ∷ []) ring_reported

detect_cycles-IsCycle_example :
    ((detect_cycles ring ≢ []) ↔ ((p : List ℕ) × IsCycle ring p))
    × ((visit_keys 9 ring (sort_ints (keys ring)) fresh_search).out ≡ detect_cycles ring)
detect_cycles-IsCycle_example = detect_cycles-IsCycle ring 9 (omega arith)

-- 1 and 2 depend on each other, and so do 1, 3, 2 in a ring: only the first cycle is reported.
abbrev two_rings : Graph
two_rings = (1, 2 ∷ 3 ∷ []) ∷ (2, 1 ∷ []) ∷ (3, 2 ∷ []) ∷ []

third_unreported : lookup 3 (detect_cycles two_rings) ≡ none
unfolding detect_cycles visit_keys visit_white sort_ints insert_int keys visit each_next meet
    close_cycle leave enter drop_last report format_cycle extract_cycle_path or_else drop_to
    color_in next_of color_of deps_of lookup insert itoa digits concat
third_unreported = refl

normalize_dependency-IsNormal_example : IsNormal "o/r" (normalize_dependency "o/r" "'o/s#7'")
normalize_dependency-IsNormal_example = normalize_dependency-IsNormal "o/r" "'o/s#7'"

normalize_dependency-itoa_example :
    normalize_dependency "o/r" (String.◌∷◌ "#" (itoa 42))
    ≡ accepted (String.◌∷◌ "#" (itoa 42)) "o/r" 42 active
normalize_dependency-itoa_example = normalize_dependency-itoa "o/r" 42 (ground arith) (ground arith)

-- Issue 1 declares that it depends on 2, which was closed by a linked pull request.
abbrev declared : String → Option (List String)
declared body = if str_eq body "needs 2" then some ("#2" ∷ []) else none

abbrev read : ℕ → Option IssueDetails
read n = if n == 2 then some (record { state = "closed"; closed_by_linked_pr = true }) else none

abbrev waiting : CachedIssue
waiting = record { state = "open"; body = "needs 2"; labels = "status:blocked" ∷ [] }

abbrev cached : List (ℕ × CachedIssue)
cached = (1, waiting) ∷ (4, record waiting { state = "closed" }) ∷ []

abbrev before : List (ℕ × IssueDependencyState)
before =
    (
      1,
      record {
        repo = "o/r";
        issue_num = 1;
        verdict = blocked;
        resume_label = "";
        reasons = "o/r#2:open" ∷ [];
        override_active = false;
        graph_version = 1;
      },
    )
    ∷ []

cached-AreKeys : AreKeys (issue_numbers (open_issues_of cached))
unfolding open_issues_of issue_numbers has str_eq
cached-AreKeys = (refl, tt)

evaluate_open_issues-unblocked_example :
    has 1 (evaluate_open_issues declared "o/r" 2 true read cached before).unblocked ≡ (
      gate_blocks (is_blocked (some (lookup 1 before)))
      && not (
          gate_blocks (
            is_blocked (
              some (
                lookup 1 (evaluate_open_issues declared "o/r" 2 true read cached before).states)))))
evaluate_open_issues-unblocked_example =
    evaluate_open_issues-unblocked declared "o/r" 2 read cached before cached-AreKeys 1

waiting-found : lookup 1 (open_issues_of cached) ≡ some (open_issue 1 waiting)
unfolding open_issues_of lookup str_eq
waiting-found = refl

waiting-declares : (parsed_declaration declared "o/r" (open_issue 1 waiting).body).has_block ≡ true
unfolding parsed_declaration open_issue str_eq
waiting-declares = refl

evaluate_open_issues-due_example :
    (s : IssueDependencyState) × (lookup 1
        (evaluate_open_issues declared "o/r" 2 true read cached before).states
      ≡ some s)
    × (s.verdict
        ≡ due_verdict declared "o/r" read
            (detect_cycles (graph_of declared "o/r" (open_issues_of cached)))
            (open_issues_of cached)
            1
            (open_issue 1 waiting))
evaluate_open_issues-due_example =
    evaluate_open_issues-due declared "o/r" 2 true read cached before 1 (open_issue 1 waiting)
      cached-AreKeys waiting-found waiting-declares
