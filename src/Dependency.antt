-- ===== src/Dependency.antt =====
-- internal/dependency: the verdict of one open issue (dependency.go) and the gate that reads it (gate.go).
-- Issue numbers are positive. The forge's answer for an issue that is not open is a function, the same
-- during one evaluation; the hash of the reasons, the time and the log of a rate limit are left out.
mod Refs
mod Cycles
mod Verdicts
mod Reasons
pub mod Evaluate
mod Examples
use workbuddy.Prelude.{
  ℕ, String, Bool, true, false, not, ◌&&◌, ◌||◌, Option, none, some, List, [], ◌∷◌, ◌++◌,
  if◌then◌else◌, str_eq, contains, any, has_prefix, concat, join_strings, lookup, insert, nat_eq,
}
use workbuddy.Poller.{Issue}

-- The statuses of a declared dependency, and the verdicts on an issue.
pub data DependencyStatus : Type 0 where
  active unsupported_cross_repo invalid removed : DependencyStatus

pub data DependencyVerdict : Type 0 where
  ready blocked override needs_human : DependencyVerdict

pub record ParsedDependency : Type 0 where
  pub raw : String
  pub repo : String
  pub issue_num : ℕ
  pub status : DependencyStatus
  pub normalized : String
  pub parse_error_reason : String

pub record IssueDetails : Type 0 where
  pub state : String
  pub closed_by_linked_pr : Bool

pub record IssueDependencyState : Type 0 where
  pub repo : String
  pub issue_num : ℕ
  pub verdict : DependencyVerdict
  pub resume_label : String
  pub reasons : List String
  pub override_active : Bool
  pub graph_version : ℕ

abbrev pub override_label : String
override_label = "override:force-unblock"

abbrev pub status_blocked : String
status_blocked = "status:blocked"

abbrev pub status_done : String
status_done = "status:done"

abbrev pub status_failed : String
status_failed = "status:failed"

unfoldable pub has_label : List String → String → Bool
has_label labels want = contains labels want

unfoldable pub find_resume_label : List String → String → String
find_resume_label [] fallback = fallback
find_resume_label (label ∷ labels) fallback =
    let rest = find_resume_label labels fallback in
    if has_prefix label "status:" && not (str_eq label status_blocked) then label else rest

pub data OpenStatus : Type 0 where
  done failed open_still : OpenStatus

unfoldable pub classify_open_dependency : List String → OpenStatus
classify_open_dependency labels =
    if has_label labels status_done
    then done
    else if has_label labels status_failed
    then failed
    else open_still

-- What the loop over the dependencies of one issue carries, the cache of the issues read included.
pub record Resolving : Type 0 where
  pub verdict : DependencyVerdict
  pub reasons : List String
  pub closed_cache : List (ℕ × IssueDetails)

-- A ready verdict becomes blocked; a verdict that a human is needed stays.
unfoldable pub hold : DependencyVerdict → DependencyVerdict
hold ready = blocked
hold v = v

unfoldable pub blocked_for : String → Resolving → Resolving
blocked_for reason r = record r { verdict = hold r.verdict; reasons = r.reasons ++ reason ∷ [] }

unfoldable pub human_for : String → Resolving → Resolving
human_for reason r = record r { verdict = needs_human; reasons = r.reasons ++ reason ∷ [] }

unfoldable pub judge_open : ParsedDependency → OpenStatus → Resolving → Resolving
judge_open dep done r = r
judge_open dep failed r = blocked_for (concat (dep.normalized ∷ ":failed" ∷ [])) r
judge_open dep open_still r = blocked_for (concat (dep.normalized ∷ ":open" ∷ [])) r

unfoldable pub judge_detail : ParsedDependency → Option IssueDetails → Resolving → Resolving
judge_detail dep none r = human_for (concat (dep.normalized ∷ ":unreadable" ∷ [])) r
judge_detail dep (some d) r =
    if str_eq d.state "closed" && d.closed_by_linked_pr
    then r
    else if str_eq d.state "closed"
    then blocked_for (concat (dep.normalized ∷ ":closed-without-linked-pr" ∷ [])) r
    else human_for (concat (dep.normalized ∷ ":unreadable" ∷ [])) r

unfoldable pub remember : ℕ → Option IssueDetails → Resolving → Resolving
remember n none r = r
remember n (some d) r = record r { closed_cache = insert n d r.closed_cache }

-- The reader is asked about an issue of the repository that the cache does not have.
unfoldable pub fetch_closed :
    String
    → (ℕ → Option IssueDetails)
    → ParsedDependency
    → Option IssueDetails
    → Resolving
    → Option IssueDetails × Resolving
fetch_closed repo read dep (some d) r = (some d, r)
fetch_closed repo read dep none r =
    if str_eq dep.repo repo
    then (read dep.issue_num, remember dep.issue_num (read dep.issue_num) r)
    else (none, r)

unfoldable pub judge_closed :
    String → (ℕ → Option IssueDetails) → ParsedDependency → Resolving → Resolving
judge_closed repo read dep r =
    let (detail, r') = fetch_closed repo read dep (lookup dep.issue_num r.closed_cache) r in
    judge_detail dep detail r'

unfoldable pub judge_active :
    String → (ℕ → Option IssueDetails) → ParsedDependency → Option Issue → Resolving → Resolving
judge_active repo read dep none r = judge_closed repo read dep r
judge_active repo read dep (some i) r =
    if str_eq dep.repo repo
    then judge_open dep (classify_open_dependency i.labels) r
    else judge_closed repo read dep r

unfoldable pub judge :
    String
    → List (ℕ × Issue)
    → (ℕ → Option IssueDetails)
    → DependencyStatus
    → ParsedDependency
    → Resolving
    → Resolving
judge repo open_issues read unsupported_cross_repo dep r =
    human_for (concat (dep.normalized ∷ ":unsupported-cross-repo" ∷ [])) r
judge repo open_issues read invalid dep r =
    human_for (concat (dep.raw ∷ ":" ∷ dep.parse_error_reason ∷ [])) r
judge repo open_issues read _ dep r =
    judge_active repo read dep (lookup dep.issue_num open_issues) r

unfoldable pub judge_all :
    String
    → List (ℕ × Issue)
    → (ℕ → Option IssueDetails)
    → List ParsedDependency
    → Resolving
    → Resolving
judge_all repo open_issues read [] r = r
judge_all repo open_issues read (dep ∷ deps) r =
    judge_all repo open_issues read deps (judge repo open_issues read dep.status dep r)

unfoldable pub start_resolving : List String → List (ℕ × IssueDetails) → Resolving
start_resolving [] cache = record { verdict = ready; reasons = []; closed_cache = cache }
start_resolving (n ∷ path) cache = record {
  verdict = needs_human;
  reasons = concat ("cycle:" ∷ join_strings " -> " (n ∷ path) ∷ []) ∷ [];
  closed_cache = cache;
}

unfoldable pub build_resolve_result :
    String
    → Issue
    → List ParsedDependency
    → (graph_version : ℕ) → (cycle_path : List String) → List (ℕ × Issue)
    → List (ℕ × IssueDetails)
    → (ℕ → Option IssueDetails)
    → IssueDependencyState × List (ℕ × IssueDetails)
build_resolve_result repo issue deps graph_version cycle_path open_issues cache read =
    let r = judge_all repo open_issues read deps (start_resolving cycle_path cache) in
    let forced = has_label issue.labels override_label in
    (
      record {
        repo = repo;
        issue_num = issue.number;
        verdict = if forced then override else r.verdict;
        resume_label = find_resume_label issue.labels "";
        reasons = r.reasons;
        override_active = forced;
        graph_version = graph_version;
      },
      r.closed_cache,
    )

-- The gate: `none` is a row that cannot be read.
unfoldable pub is_blocked :
    Option (Option IssueDependencyState) → Option (Bool × Option DependencyVerdict)
is_blocked none = none
is_blocked (some none) = some (false, none)
is_blocked (some (some s)) = elim s.verdict [
  | blocked ↦ some (true, some blocked)
  | needs_human ↦ some (true, some needs_human)
  | v ↦ some (false, some v)
]
