-- ===== src/Machine/Completions.antt =====
-- internal/statemachine/statemachine.go: what follows the completion of a task (the end of
-- MarkAgentCompletedWithDecision, evaluateCompletionTransitions, advanceRolloutFailureToBlocked), for one
-- issue and the workflow that its group is of. The statements of the database do not fail.
pub mod Gated
pub mod Followed
mod Examples
use workbuddy.Prelude.{
  ℕ, String, Bool, true, false, not, ◌&&◌, ◌||◌, Option, none, some, List, [], ◌∷◌, ◌++◌,
  if◌then◌else◌, str_eq, trim_space, contains, lookup, string_eq, ℤ,
}
use workbuddy.Poller.{ChangeEvent, label_added}
use workbuddy.Machine.Config.{State, Workflow, join_rollouts, state_mode_review, state_mode_synth}
use workbuddy.Machine.Groups.{
  DispatchGroup, Verdict, Completion, no_group, seen_task, foreign_slot, recorded,
  mark_agent_completed,
}
use workbuddy.Machine.Transitions.{taken, increment_transition}
use workbuddy.Machine.Dispatch.{rollouts_refused}
use workbuddy.Machine.Events.{IssueState, Env, Processed, dispatched, evaluated, evaluate}
use workbuddy.Machine.Watch.{CompletionRecord, record_stuck_candidate}

-- The order of the workflows is the one in which Go's map is iterated.
unfoldable pub find_matching_workflows : List String → List (String × Workflow) → List Workflow
find_matching_workflows labels [] = []
find_matching_workflows labels ((name, wf) ∷ wfs) =
    let rest = find_matching_workflows labels wfs in
    if not (str_eq wf.issue_label "") && contains labels wf.issue_label then wf ∷ rest else rest

unfoldable pub state_mode_from_group : DispatchGroup → String
state_mode_from_group g = if str_eq (trim_space g.mode) "" then state_mode_review else g.mode

-- The outcome of the synthesis, where there is one.
unfoldable pub should_escalate : Option String → Bool
should_escalate none = true
should_escalate (some outcome) = str_eq outcome "escalate"

-- How the replay of one label ends: an error of the dispatch ends the loop, too.
pub data Replayed : Type 0 where
  untaken : Replayed
  took broken : Processed → Replayed

unfoldable pub replayed : Processed → Replayed
replayed (dispatched (rollouts_refused r)) = broken (dispatched (rollouts_refused r))
replayed (dispatched d) = took (dispatched d)
replayed (evaluated (taken target)) = took (evaluated (taken target))
replayed _ = untaken

unfoldable pub or_continue : Replayed × IssueState → Replayed × IssueState → Replayed × IssueState
or_continue (untaken, st) next = next
or_continue (took p, st) next = (took p, st)
or_continue (broken p, st) next = (broken p, st)

unfoldable pub replay_labels :
    Workflow → ChangeEvent → Env → String → State → List String → IssueState → Replayed × IssueState
replay_labels wf ev env name s [] st = (untaken, st)
replay_labels wf ev env name s (label ∷ labels) st =
    let (out, st') = evaluate wf (record ev { detail = label }) env name s st in
    or_continue (replayed out, st') (replay_labels wf ev env name s labels st')

unfoldable pub replay_state :
    Workflow → ChangeEvent → Env → String → Option State → IssueState → Replayed × IssueState
replay_state wf ev env name none st = (untaken, st)
replay_state wf ev env name (some s) st = replay_labels wf ev env name s ev.labels st

unfoldable pub evaluate_completion_transitions :
    List Workflow
    → ChangeEvent
    → Env
    → (workflow source : String) → IssueState
    → Replayed × IssueState
evaluate_completion_transitions (wf ∷ []) ev env workflow source st =
    if str_eq wf.name workflow
    then replay_state wf ev env source (lookup source wf.states) st
    else (untaken, st)
evaluate_completion_transitions [] ev env workflow source st = (untaken, st)
evaluate_completion_transitions (wf ∷ other ∷ wfs) ev env workflow source st = (untaken, st)

unfoldable pub to_blocked : (source : String) → Option State → IssueState → IssueState
to_blocked source none st = st
to_blocked source (some s) st = record st {
  progress = record st.progress {
    current_state = "blocked";
    history = st.progress.history ++ record { from = source; to = "blocked" } ∷ [];
  };
  counts = increment_transition source "blocked" st.counts;
}

unfoldable pub blocked_state : Option Workflow → Option State
blocked_state none = none
blocked_state (some wf) = lookup "blocked" wf.states

unfoldable pub advance_rollout_failure_to_blocked :
    List (String × Workflow) → (workflow source : String) → IssueState → IssueState
advance_rollout_failure_to_blocked wfs workflow source st =
    to_blocked source (blocked_state (lookup workflow wfs)) st

pub data Aftermath : Type 0 where
  unresolved orphaned stalled malformed : Aftermath
  escalated : (reported : Bool) → Aftermath
  failed : (needs_human : Bool) → Aftermath
  moved : Processed → Aftermath

pub record IssueRuntime : Type 0 where
  pub st : IssueState
  pub stuck : Option CompletionRecord

abbrev is_missing : Option String → Bool
is_missing none = true
is_missing (some _) = false

module _ (wfs : List (String × Workflow)) (ev : ChangeEvent) (env : Env)
    (decision : Option String) where
  unfoldable pub after_replay :
      DispatchGroup → Replayed × IssueState → IssueRuntime → Aftermath × IssueRuntime
  after_replay g (took p, st) i = (moved p, record i { st = st })
  after_replay g (_, st) i =
      if str_eq (state_mode_from_group g) state_mode_synth
      then (
        malformed,
        record i { st = advance_rollout_failure_to_blocked wfs g.workflow g.state st },
      )
      else (stalled, record { st = st; stuck = record_stuck_candidate env.now ev.labels i.stuck })

  unfoldable pub after_failure : DispatchGroup → IssueRuntime → Aftermath × IssueRuntime
  after_failure g i =
      let joins = str_eq g.join.strategy join_rollouts in
      (
        failed joins,
        record {
          st =
              if joins
              then advance_rollout_failure_to_blocked wfs g.workflow g.state i.st
              else i.st;
          stuck = record_stuck_candidate env.now ev.labels i.stuck;
        },
      )

  unfoldable pub after_group :
      DispatchGroup → (passed : Bool) → IssueRuntime → Aftermath × IssueRuntime
  after_group g passed i =
      if str_eq (state_mode_from_group g) state_mode_synth && should_escalate decision
      then (
        escalated (is_missing decision),
        record {
          st = advance_rollout_failure_to_blocked wfs g.workflow g.state i.st;
          stuck = record_stuck_candidate env.now ev.labels i.stuck;
        },
      )
      else if passed
      then after_replay g
          (evaluate_completion_transitions (find_matching_workflows ev.labels wfs) ev env g.workflow
            g.state i.st)
          i
      else after_failure g i

  unfoldable pub after_completion : Completion → IssueRuntime → Aftermath × IssueRuntime
  after_completion no_group i =
      (orphaned, record i { stuck = record_stuck_candidate env.now ev.labels i.stuck })
  after_completion seen_task i = (unresolved, i)
  after_completion (foreign_slot g) i = (unresolved, i)
  after_completion (recorded g v) i =
      if v.should_advance then after_group g v.passed i else (unresolved, i)

-- The labels of the issue stand in the event of the replay.
abbrev pub completion_event : (repo : String) → ℕ → List String → ChangeEvent
completion_event repo issue_num labels = record {
  type = label_added;
  repo = repo;
  issue_num = issue_num;
  labels = labels;
  detail = "";
  author = "";
}

unfoldable pub mark_agent_completed_with_decision :
    List (String × Workflow)
    → (repo : String) → (issue_num : ℕ) → (task_id agent_name : String) → (exit_code : ℤ)
    → (labels : List String) → (decision : Option String) → Env
    → IssueRuntime
    → Aftermath × IssueRuntime
mark_agent_completed_with_decision wfs repo issue_num task_id agent_name exit_code labels decision
      env i =
    let (done, inflight) =
      mark_agent_completed task_id agent_name exit_code env.tasks i.st.inflight in
    after_completion wfs (completion_event repo issue_num labels) env decision done
      (record i { st = record i.st { inflight = inflight } })
