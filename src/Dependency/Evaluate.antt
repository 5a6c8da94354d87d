-- ===== src/Dependency/Evaluate.antt =====
-- internal/dependency/dependency.go: the evaluation of the open issues of one repository
-- (EvaluateOpenIssues). Go's map of the open issues is a list, in the order in which it is iterated; the
-- context is not cancelled and the statements of the database do not fail. The hash of the reasons is
-- compared as the reasons; the hash of the malformed references is a parameter.
pub mod Others
pub mod Reopened
pub mod Outcome
use workbuddy.Prelude.{
  ℕ, String, Bool, true, false, not, ◌&&◌, ◌||◌, Option, none, some, List, [], ◌∷◌, ◌++◌, ltb, ◌==◌,
  if◌then◌else◌, str_eq, lookup, insert, nat_eq,
}
use workbuddy.Poller.{Issue}
use workbuddy.Store.Keys.{IssueKey}
use workbuddy.Store.Hazards.{
  Hazards, malformed_dependency_ref, upsert_issue_pipeline_hazard, clear_hazard_if_kind,
}
use workbuddy.Dependency.{
  DependencyStatus, active, unsupported_cross_repo, invalid, removed, DependencyVerdict, ready,
  blocked, override, needs_human, ParsedDependency, IssueDetails, IssueDependencyState,
  build_resolve_result,
}
use workbuddy.Dependency.Refs.{parse_declaration}
use workbuddy.Dependency.Cycles.{Graph, detect_cycles}

-- A row of issue_cache, its labels read from their JSON.
pub record CachedIssue : Type 0 where
  pub state : String
  pub body : String
  pub labels : List String

unfoldable pub open_issue : ℕ → CachedIssue → Issue
open_issue num c = record {
  number = num;
  title = "";
  state = c.state;
  labels = c.labels;
  body = c.body;
  author = "";
}

unfoldable pub open_issues_of : List (ℕ × CachedIssue) → List (ℕ × Issue)
open_issues_of [] = []
open_issues_of ((num, c) ∷ rows) =
    let rest = open_issues_of rows in
    if str_eq c.state "open" then (num, open_issue num c) ∷ rest else rest

pub record ParsedDeclaration : Type 0 where
  pub dependencies : List ParsedDependency
  pub has_block : Bool

abbrev has_some : Option (List String) → Bool
has_some none = false
has_some (some _) = true

unfoldable pub parsed_declaration :
    (declared : String → Option (List String)) → (repo body : String) → ParsedDeclaration
parsed_declaration declared repo body = record {
  dependencies = parse_declaration repo (declared body);
  has_block = has_some (declared body);
}

abbrev pub is_invalid : DependencyStatus → Bool
is_invalid invalid = true
is_invalid _ = false

abbrev pub is_active : DependencyStatus → Bool
is_active active = true
is_active _ = false

unfoldable pub invalid_dependencies : List ParsedDependency → List ParsedDependency
invalid_dependencies [] = []
invalid_dependencies (d ∷ ds) =
    let rest = invalid_dependencies ds in if is_invalid d.status then d ∷ rest else rest

-- Whether the event of the malformed references is logged, and the hazards.
unfoldable pub sync_malformed :
    (fingerprint : List ParsedDependency → String)
    → (now : ℕ) → IssueKey
    → List ParsedDependency
    → Hazards
    → Bool × Hazards
sync_malformed fingerprint now key [] hazards =
    (false, clear_hazard_if_kind key malformed_dependency_ref hazards)
sync_malformed fingerprint now key (d ∷ ds) hazards =
    upsert_issue_pipeline_hazard now key malformed_dependency_ref (fingerprint (d ∷ ds)) hazards

unfoldable pub sync_malformed_dependency_hazard :
    (fingerprint : List ParsedDependency → String)
    → (now : ℕ) → IssueKey
    → ParsedDeclaration
    → Hazards
    → Bool × Hazards
sync_malformed_dependency_hazard fingerprint now key decl hazards =
    sync_malformed fingerprint now key (invalid_dependencies decl.dependencies) hazards

-- What an issue adds to the graph: the numbers of its active references within the repository.
unfoldable pub edges_of : String → List ParsedDependency → List ℕ
edges_of repo [] = []
edges_of repo (d ∷ ds) =
    let rest = edges_of repo ds in
    if (not (str_eq d.repo "") && ltb 0 d.issue_num) && (is_active d.status && str_eq d.repo repo)
    then d.issue_num ∷ rest
    else rest

unfoldable pub add_node : ℕ → List ℕ → Graph → Graph
add_node num [] g = g
add_node num (n ∷ ns) g = (num, n ∷ ns) ∷ g

unfoldable pub graph_of :
    (declared : String → Option (List String)) → String → List (ℕ × Issue) → Graph
graph_of declared repo [] = []
graph_of declared repo ((num, issue) ∷ issues) =
    add_node num (edges_of repo (parsed_declaration declared repo issue.body).dependencies)
      (graph_of declared repo issues)

unfoldable pub sync_hazards :
    (declared : String → Option (List String))
    → (fingerprint : List ParsedDependency → String) → (now : ℕ) → String
    → List (ℕ × Issue)
    → Hazards
    → Hazards
sync_hazards declared fingerprint now repo [] hazards = hazards
sync_hazards declared fingerprint now repo ((num, issue) ∷ issues) hazards =
    let key : IssueKey = record { repo = repo; issue_num = num } in
    sync_hazards declared fingerprint now repo issues
      (sync_malformed_dependency_hazard fingerprint now key
        (parsed_declaration declared repo issue.body) hazards).1

unfoldable pub same_verdict : DependencyVerdict → DependencyVerdict → Bool
same_verdict ready ready = true
same_verdict blocked blocked = true
same_verdict override override = true
same_verdict needs_human needs_human = true
same_verdict _ _ = false

unfoldable pub same_texts : List String → List String → Bool
same_texts [] [] = true
same_texts (x ∷ xs) (y ∷ ys) = str_eq x y && same_texts xs ys
same_texts _ _ = false

unfoldable pub same_flag : Bool → Bool → Bool
same_flag true b = b
same_flag false b = not b

unfoldable pub verdict_changed : Option IssueDependencyState → IssueDependencyState → Bool
verdict_changed none s = true
verdict_changed (some p) s =
    not (same_verdict p.verdict s.verdict)
    || not (same_texts p.reasons s.reasons)
    || not (same_flag p.override_active s.override_active)

unfoldable pub gates : DependencyVerdict → Bool
gates blocked = true
gates needs_human = true
gates _ = false

unfoldable pub gated : Option IssueDependencyState → Bool
gated none = false
gated (some p) = gates p.verdict

unfoldable pub opens : DependencyVerdict → Bool
opens ready = true
opens override = true
opens _ = false

unfoldable pub keep_resume_label :
    Option IssueDependencyState → IssueDependencyState → IssueDependencyState
keep_resume_label none s = s
keep_resume_label (some p) s =
    if not (str_eq p.resume_label "") && str_eq s.resume_label ""
    then record s { resume_label = p.resume_label }
    else s

pub record Evaluated : Type 0 where
  pub states : List (ℕ × IssueDependencyState)
  pub closed_cache : List (ℕ × IssueDetails)
  pub unblocked : List ℕ

-- `logged`: there is an event log. The unblocked issues are collected only then.
unfoldable pub settle_state :
    (logged : Bool) → ℕ → Option IssueDependencyState → IssueDependencyState → Evaluated → Evaluated
settle_state logged num prev s e = record e {
  states = insert num s e.states;
  unblocked =
      if (verdict_changed prev s && logged) && (gated prev && opens s.verdict)
      then e.unblocked ++ num ∷ []
      else e.unblocked;
}

unfoldable pub has_state : Option IssueDependencyState → Bool
has_state none = false
has_state (some _) = true

abbrev path_of : Option (List String) → List String
path_of none = []
path_of (some p) = p

module _ (declared : String → Option (List String)) (repo : String) (graph_version : ℕ)
    (logged : Bool) (read : ℕ → Option IssueDetails) (cycles : List (ℕ × List String))
    (open_issues : List (ℕ × Issue)) where
  unfoldable pub evaluate_issue : ℕ → Issue → Evaluated → Evaluated
  evaluate_issue num issue e =
      let decl = parsed_declaration declared repo issue.body in
      let (result, cache) =
        build_resolve_result repo issue decl.dependencies graph_version
          (path_of (lookup num cycles)) open_issues e.closed_cache read in
      let prev = lookup num e.states in
      let e' : Evaluated = record e { closed_cache = cache } in
      if not decl.has_block && not (has_state prev)
      then e'
      else settle_state logged num prev (keep_resume_label prev result) e'

  unfoldable pub evaluate_issues : List (ℕ × Issue) → Evaluated → Evaluated
  evaluate_issues [] e = e
  evaluate_issues ((num, issue) ∷ issues) e = evaluate_issues issues (evaluate_issue num issue e)

unfoldable pub evaluate_open_issues :
    (declared : String → Option (List String))
    → (repo : String) → (graph_version : ℕ) → (logged : Bool) → (read : ℕ → Option IssueDetails)
    → List (ℕ × CachedIssue)
    → List (ℕ × IssueDependencyState)
    → Evaluated
evaluate_open_issues declared repo graph_version logged read cached states =
    let open_issues = open_issues_of cached in
    evaluate_issues declared repo graph_version logged read
      (detect_cycles (graph_of declared repo open_issues)) open_issues open_issues
      (record { states = states; closed_cache = []; unblocked = [] })
