-- ===== src/Machine/Handle.antt =====
-- internal/statemachine/statemachine.go: an event of the poller (HandleEvent, ResetDedup, the pipeline
-- hazards of detectNoWorkflowMatchHazard and detectDependencyUnenteredHazard), for one issue. The statements of
-- the database do not fail.
pub mod Effects
pub mod Reported
mod Examples
use workbuddy.Prelude.{
  ℕ, String, Bool, true, false, not, ◌&&◌, ◌||◌, Option, none, some, List, [], ◌∷◌, ltb,
  if◌then◌else◌, str_eq, has_prefix, trim_space, any, contains, concat, itoa, lookup, insert,
  string_eq,
}
use workbuddy.Poller.{
  ChangeEvent, EventType, issue_created, label_added, label_removed, pr_created, pr_state_changed,
  issue_closed, issue_resynced, poll_cycle_done,
}
use workbuddy.Store.Keys.{IssueKey}
use workbuddy.Store.Hazards.{
  Hazards, HazardKind, no_workflow_match, awaiting_status_label, upsert_issue_pipeline_hazard,
  clear_hazard_if_kind,
}
use workbuddy.Machine.Config.{State, Workflow}
use workbuddy.Machine.Groups.{DispatchGroup}
use workbuddy.Machine.Cycles.{CycleState, Transition}
use workbuddy.Machine.Transitions.{Count}
use workbuddy.Machine.Events.{
  find_current_state, IssueState, Env, Processed, process_workflow_event,
}
use workbuddy.Machine.Completions.{find_matching_workflows}

-- What the database holds of one workflow of the issue.
pub record Instance : Type 0 where
  pub current_state : String
  pub history : List Transition

pub record Machine : Type 0 where
  pub processed_events : List String
  pub hazards : Hazards
  pub cycles : CycleState
  pub inflight : Option DispatchGroup
  pub counts : List Count
  pub instances : List (String × Instance)

-- `declaration`: the source hash of the dependencies that the cached body declares, where there are any. The
-- two fingerprints are the hashes.
pub record HandleEnv : Type 0 where
  pub env : Env
  pub workflows : List (String × Workflow)
  pub labels_fingerprint : List String → String
  pub hazard_fingerprint : (labels source_hash : String) → String
  pub declaration : Option String

pub data Handled : Type 0 where
  duplicate : Handled
  unmatched : (told : Bool) → Handled
  ambiguous : List Workflow → Handled
  handled : (told : Bool) → Processed → Handled

unfoldable pub event_text : EventType → String
event_text issue_created = "issue_created"
event_text label_added = "label_added"
event_text label_removed = "label_removed"
event_text pr_created = "pr_created"
event_text pr_state_changed = "pr_state_changed"
event_text issue_closed = "issue_closed"
event_text issue_resynced = "issue_resynced"
event_text poll_cycle_done = "poll_cycle_done"

abbrev pub is_cycle_done : EventType → Bool
is_cycle_done poll_cycle_done = true
is_cycle_done _ = false

unfoldable pub event_key : ChangeEvent → String
event_key ev =
    concat (ev.repo ∷ "#" ∷ itoa ev.issue_num ∷ "#" ∷ event_text ev.type ∷ "#" ∷ ev.detail ∷ [])

unfoldable pub has_status_label : List String → Bool
has_status_label labels = any (λ l. has_prefix l "status:") labels

unfoldable pub has_any_workflow : List (String × Workflow) → Bool
has_any_workflow wfs =
    any (λ (w : String × Workflow). not (str_eq (trim_space w.1.issue_label) "")) wfs

abbrev pub key_of : ChangeEvent → IssueKey
key_of ev = record { repo = ev.repo; issue_num = ev.issue_num }

-- Whether the event of the hazard is logged, and the rows.
unfoldable pub detect_no_workflow_match_hazard : HandleEnv → ChangeEvent → Hazards → Bool × Hazards
detect_no_workflow_match_hazard henv ev hazards =
    if has_status_label ev.labels && has_any_workflow henv.workflows
    then upsert_issue_pipeline_hazard henv.env.now (key_of ev) no_workflow_match
        (henv.labels_fingerprint ev.labels) hazards
    else (false, hazards)

unfoldable pub detect_unentered : HandleEnv → ChangeEvent → Option String → Hazards → Bool × Hazards
detect_unentered henv ev none hazards = (false, hazards)
detect_unentered henv ev (some source_hash) hazards =
    upsert_issue_pipeline_hazard henv.env.now (key_of ev) awaiting_status_label
      (henv.hazard_fingerprint (henv.labels_fingerprint ev.labels) source_hash) hazards

unfoldable pub clear_if_issue : ChangeEvent → HazardKind → Hazards → Hazards
clear_if_issue ev kind hazards =
    if ltb 0 ev.issue_num then clear_hazard_if_kind (key_of ev) kind hazards else hazards

-- The hazards of an issue by whether its labels name a state.
unfoldable pub check_entered :
    HandleEnv → ChangeEvent → Option (String × State) → Hazards → Bool × Hazards
check_entered henv ev none hazards =
    if ltb 0 ev.issue_num
    then detect_unentered henv ev henv.declaration hazards
    else (false, hazards)
check_entered henv ev (some s) hazards = (false, clear_if_issue ev awaiting_status_label hazards)

unfoldable pub instance_of : Option Instance → Instance
instance_of none = record { current_state = ""; history = [] }
instance_of (some i) = i

abbrev is_there : Option Instance → Bool
is_there none = false
is_there (some _) = true

unfoldable pub issue_state : String → Machine → IssueState
issue_state name m =
    let i = instance_of (lookup name m.instances) in
    record {
      has_instance = is_there (lookup name m.instances);
      progress = record { cycles = m.cycles; current_state = i.current_state; history = i.history };
      inflight = m.inflight;
      counts = m.counts;
    }

-- An instance is created before anything else is done to it.
unfoldable pub with_state : String → IssueState → Machine → Machine
with_state name st m = record m {
  cycles = st.progress.cycles;
  inflight = st.inflight;
  counts = st.counts;
  instances =
      insert name
        (record { current_state = st.progress.current_state; history = st.progress.history })
        m.instances;
}

unfoldable pub handle_matched : HandleEnv → ChangeEvent → Workflow → Machine → Handled × Machine
handle_matched henv ev wf m =
    let (told, hazards) =
      check_entered henv ev (find_current_state ev.labels wf.states) m.hazards in
    let (out, st) = process_workflow_event wf ev henv.env (issue_state wf.name m) in
    (handled told out, with_state wf.name st (record m { hazards = hazards }))

unfoldable pub cleared : ChangeEvent → Machine → Machine
cleared ev m = record m { hazards = clear_if_issue ev no_workflow_match m.hazards }

unfoldable pub handle_among : HandleEnv → ChangeEvent → List Workflow → Machine → Handled × Machine
handle_among henv ev [] m =
    if ltb 0 ev.issue_num && not (is_cycle_done ev.type)
    then (let (told, hazards) = detect_no_workflow_match_hazard henv ev m.hazards in
        (unmatched told, record m { hazards = hazards }))
    else (unmatched false, m)
handle_among henv ev (wf ∷ []) m = handle_matched henv ev wf (cleared ev m)
handle_among henv ev (wf ∷ other ∷ wfs) m = (ambiguous (wf ∷ other ∷ wfs), cleared ev m)

unfoldable pub handle_event : HandleEnv → ChangeEvent → Machine → Handled × Machine
handle_event henv ev m =
    if contains m.processed_events (event_key ev)
    then (duplicate, m)
    else handle_among henv ev (find_matching_workflows ev.labels henv.workflows)
        (record m { processed_events = event_key ev ∷ m.processed_events })

unfoldable pub reset_dedup : Machine → Machine
reset_dedup m = record m { processed_events = [] }
