-- ===== src/Machine/Events.antt =====
-- internal/statemachine/statemachine.go: what one event does to an issue (processWorkflowEvent,
-- findCurrentState), put together from the caps, the transitions and the dispatch.
pub mod Gates
use workbuddy.Prelude.{
  ℕ, String, Bool, true, false, not, ◌&&◌, ◌||◌, Option, none, some, List, [], ◌∷◌, ◌++◌,
  if◌then◌else◌, str_eq, contains, lookup, string_eq,
}
use workbuddy.Poller.{ChangeEvent, EventType, label_added, issue_created, issue_resynced}
use workbuddy.Store.Tasks.Queue.{Tasks}
use workbuddy.Store.Tasks.Queries.{has_any_active_task}
use workbuddy.Machine.Config.{State, Workflow}
use workbuddy.Machine.Groups.{DispatchGroup}
use workbuddy.Machine.Cycles.{Progress, Transition, Notice, Entry, enter_state, enter_stateless}
use workbuddy.Machine.Transitions.{
  state_agents, Count, increment_transition, Evaluation, taken, evaluate_transitions,
}
use workbuddy.Machine.Dispatch.{Request, Dispatch, sent, dispatch_state_agents}
use workbuddy.Machine.Watch.{reconcile_stale_inflight}

-- The order of the states is the one in which Go's map is iterated.
unfoldable pub find_current_state : List String → List (String × State) → Option (String × State)
find_current_state labels [] = none
find_current_state labels ((name, s) ∷ states) =
    if not (str_eq s.enter_label "") && contains labels s.enter_label
    then some (name, s)
    else find_current_state labels states

-- `has_instance`: the workflow has an instance of the issue, also one of no state.
pub record IssueState : Type 0 where
  pub has_instance : Bool
  pub progress : Progress
  pub inflight : Option DispatchGroup
  pub counts : List Count

-- What the step reads besides: the time, the task table, whether it can be read for active tasks, and the
-- verdicts of the gates.
pub record Env : Type 0 where
  pub now : ℕ
  pub tasks : Tasks
  pub unreadable : Bool
  pub group_id : String
  pub dependency_blocks : Bool
  pub claim_blocks : Bool

pub data Processed : Type 0 where
  no_state resync_skipped entered_only : Processed
  capped : List Notice → Processed
  dispatched : Dispatch → Processed
  evaluated : Evaluation → Processed

abbrev pub is_resync : EventType → Bool
is_resync issue_resynced = true
is_resync _ = false

unfoldable pub detects_entry : ChangeEvent → State → Bool
detects_entry ev s = elim ev.type [
  | label_added ↦ str_eq ev.detail s.enter_label
  | issue_created ↦ true
  | issue_resynced ↦ true
  | _ ↦ false
]

abbrev pub is_staffed : List String → Bool
is_staffed [] = false
is_staffed (_ ∷ _) = true

abbrev pub is_inflight : Option DispatchGroup → Bool
is_inflight none = false
is_inflight (some _) = true

unfoldable pub resync_held : ChangeEvent → Env → IssueState → Bool
resync_held ev env st =
    is_resync ev.type
    && (is_inflight st.inflight
        || (not env.unreadable && has_any_active_task ev.repo ev.issue_num env.tasks))

-- A group of another state is dropped on entry.
unfoldable pub clear_prior : String → Option DispatchGroup → Option DispatchGroup
clear_prior name none = none
clear_prior name (some g) = if str_eq g.state name then some g else none

-- `ON CONFLICT DO NOTHING`: an instance that is there keeps its state.
unfoldable pub ensure_workflow_instance : (current_state : String) → IssueState → IssueState
ensure_workflow_instance current_state st = if st.has_instance then st else record st {
  has_instance = true;
  progress = record st.progress { current_state = current_state };
}

-- The count that goes with `recordStateEntry`.
unfoldable pub record_count : (prior entered : String) → List Count → List Count
record_count prior entered counts =
    if str_eq prior ""
    then counts
    else if str_eq prior entered
    then counts
    else increment_transition prior entered counts

abbrev base_request : ChangeEvent → (source state : String) → Request
base_request ev source state = record {
  repo = ev.repo;
  issue_num = ev.issue_num;
  agent_name = "";
  workflow = "";
  state = state;
  source_state = source;
  rollout_index = 0;
  rollouts_total = 0;
  rollout_group_id = "";
}

unfoldable pub dispatch_to :
    Workflow
    → ChangeEvent
    → Env
    → (source name : String) → State
    → IssueState
    → Processed × IssueState
dispatch_to wf ev env source name s st =
    let (out, inflight) =
      dispatch_state_agents wf s (base_request ev source name) ev.labels env.group_id
        env.dependency_blocks env.claim_blocks
        (reconcile_stale_inflight env.now ev.repo ev.issue_num env.tasks) env.tasks st.inflight in
    (dispatched out, record st { inflight = inflight })

unfoldable pub enter_staffed :
    Workflow → ChangeEvent → Env → String → State → IssueState → Processed × IssueState
enter_staffed wf ev env name s st =
    let e = enter_state env.now wf (is_resync ev.type) name st.progress in
    let cleared : IssueState = record st {
      progress = e.progress;
      inflight = clear_prior name st.inflight;
    } in
    if e.admitted
    then dispatch_to wf ev env st.progress.current_state name s
        (record cleared { counts = record_count st.progress.current_state name st.counts })
    else (capped e.notices, cleared)

unfoldable pub enter_bare : String → IssueState → Processed × IssueState
enter_bare name st = (
  entered_only,
  record st {
    progress = enter_stateless name st.progress;
    counts = record_count st.progress.current_state name st.counts;
  },
)

-- After a transition: the instance advances, and the agents of the target are dispatched.
unfoldable pub advance_to :
    Workflow
    → ChangeEvent
    → Env
    → (name target : String) → Option State
    → IssueState
    → Processed × IssueState
advance_to wf ev env name target none st = (evaluated (taken target), st)
advance_to wf ev env name target (some s) st =
    let st' : IssueState = record st {
      progress = record st.progress {
        current_state = target;
        history = st.progress.history ++ record { from = name; to = target } ∷ [];
      };
    } in
    if is_staffed (state_agents s)
    then dispatch_to wf ev env name target s st'
    else (evaluated (taken target), st')

unfoldable pub after_evaluation :
    Workflow → ChangeEvent → Env → String → Evaluation → IssueState → Processed × IssueState
after_evaluation wf ev env name (taken target) st =
    advance_to wf ev env name target (lookup target wf.states) st
after_evaluation wf ev env name other st = (evaluated other, st)

abbrev is_label_added : EventType → Bool
is_label_added label_added = true
is_label_added _ = false

unfoldable pub evaluate :
    Workflow → ChangeEvent → Env → String → State → IssueState → Processed × IssueState
evaluate wf ev env name s st =
    let (verdict, counts) = evaluate_transitions wf name s ev.detail ev.labels st.counts in
    if is_label_added ev.type
    then after_evaluation wf ev env name verdict (record st { counts = counts })
    else (evaluated Evaluation.no_label, st)

unfoldable pub in_state :
    Workflow → ChangeEvent → Env → String → State → IssueState → Processed × IssueState
in_state wf ev env name s st =
    if not (detects_entry ev s)
    then evaluate wf ev env name s st
    else if not (is_staffed (state_agents s))
    then enter_bare name st
    else if resync_held ev env st
    then (resync_skipped, st)
    else enter_staffed wf ev env name s st

unfoldable pub in_found :
    Workflow → ChangeEvent → Env → Option (String × State) → IssueState → Processed × IssueState
in_found wf ev env none st = (no_state, ensure_workflow_instance "" st)
in_found wf ev env (some (name, s)) st =
    in_state wf ev env name s (ensure_workflow_instance name st)

unfoldable pub process_workflow_event :
    Workflow → ChangeEvent → Env → IssueState → Processed × IssueState
process_workflow_event wf ev env st = in_found wf ev env (find_current_state ev.labels wf.states) st
