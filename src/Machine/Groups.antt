-- ===== src/Machine/Groups.antt =====
-- internal/statemachine/statemachine.go: the dispatch group of an issue, and what a completed task does
-- to it (newDispatchGroup, MarkAgentCompletedWithDecision up to the release of the lock).
pub mod WellFormed
mod Reported
mod Joins
mod AnyPassed
mod Runs
mod Examples
use workbuddy.Prelude.{
  ℕ, suc, ◌+◌, String, Bool, true, false, not, ◌&&◌, Option, none, some, List, [], ◌∷◌, map, ltb,
  leb, ◌==◌, if◌then◌else◌, str_eq, trim_space, length, contains, concat, itoa, ℤ, is_zero,
}
use workbuddy.Store.Rows.{find_row}
use workbuddy.Store.Tasks.Row.{Task, has_id}
use workbuddy.Store.Tasks.Queue.{Tasks}
use workbuddy.Store.Tasks.Queries.{RolloutSummary, summarize_rollout_group}
use workbuddy.Machine.Config.{JoinConfig, join_all_passed, join_any_passed, join_rollouts}

-- The sets of Go are lists that a slot enters once.
pub record DispatchGroup : Type 0 where
  pub workflow : String
  pub state : String
  pub mode : String
  pub join : JoinConfig
  pub slots : List (String × String)
  pub dispatched_slots : List String
  pub completed_task_ids : List String
  pub completed_slots : List String
  pub success_slots : List String
  pub failed_slots : List String

abbrev pub slot_keys : DispatchGroup → List String
slot_keys g = map (λ (s : String × String). s.0) g.slots

unfoldable pub new_dispatch_group :
    String → String → String → JoinConfig → List (String × String) → DispatchGroup
new_dispatch_group workflow state mode join slots = record {
  workflow = workflow;
  state = state;
  mode = mode;
  join = join;
  slots = slots;
  dispatched_slots = [];
  completed_task_ids = [];
  completed_slots = [];
  success_slots = [];
  failed_slots = [];
}

unfoldable pub rollout_slot_key : ℕ → String
rollout_slot_key index = concat ("rollout:" ∷ itoa index ∷ [])

-- What the store knows of the completed task.
pub record Completed : Type 0 where
  pub agent_name : String
  pub slot_key : String
  pub rollout_group_id : String
  pub rollout_index : ℕ
  pub rollouts_total : ℕ

abbrev or_fallback : String → String → String
or_fallback fallback name = if str_eq (trim_space name) "" then fallback else name

unfoldable pub identify_row : String → Option Task → Completed
identify_row fallback none = record {
  agent_name = fallback;
  slot_key = fallback;
  rollout_group_id = "";
  rollout_index = 0;
  rollouts_total = 1;
}
identify_row fallback (some t) = record {
  agent_name = or_fallback fallback t.agent_name;
  slot_key =
      if ltb 0 t.rollout_index
      then rollout_slot_key t.rollout_index
      else or_fallback fallback t.agent_name;
  rollout_group_id = t.rollout_group_id;
  rollout_index = t.rollout_index;
  rollouts_total = t.rollouts_total;
}

unfoldable pub identify : (task_id agent_name : String) → Tasks → Completed
unfolding identify_row
identify task_id agent_name tasks =
    if str_eq (trim_space task_id) ""
    then identify_row agent_name none
    else identify_row agent_name (find_row (has_id task_id) tasks)

pub record Verdict : Type 0 where
  pub should_advance : Bool
  pub passed : Bool

abbrev pub waiting : Verdict
waiting = record { should_advance = false; passed = false }

abbrev pub advance : Bool → Verdict
advance passed = record { should_advance = true; passed = passed }

abbrev pub all_completed : DispatchGroup → Bool
all_completed g = leb (length g.slots) (length g.completed_slots)

abbrev pub is_nil : List String → Bool
is_nil [] = true
is_nil (_ ∷ _) = false

abbrev pub when_all_completed : DispatchGroup → Verdict
when_all_completed g = if all_completed g then advance (is_nil g.failed_slots) else waiting

unfoldable pub min_successes_of : ℕ → RolloutSummary → ℕ
min_successes_of n s = if n == 0 then s.rollouts_total else n

unfoldable pub summary_verdict : ℕ → Option RolloutSummary → Verdict
unfolding min_successes_of
summary_verdict n none = waiting
summary_verdict n (some s) =
    if leb s.rollouts_total s.terminal_count
    then advance (leb (min_successes_of n s) s.success_count)
    else waiting

-- The switch on the join strategy. `fresh` says that the slot had not completed before.
unfoldable pub join_verdict :
    (fresh passed : Bool) (rollout_group_id : String) → Tasks → DispatchGroup → Verdict
join_verdict fresh passed rollout_group_id tasks g =
    if str_eq g.join.strategy join_rollouts
    then (if str_eq rollout_group_id ""
        then when_all_completed g
        else summary_verdict g.join.min_successes (summarize_rollout_group rollout_group_id tasks))
    else if str_eq g.join.strategy join_any_passed
    then (if fresh && passed && not (is_nil g.success_slots)
        then advance true
        else if all_completed g
        then advance false
        else waiting)
    else if str_eq g.join.strategy join_all_passed
    then (if all_completed g
        then advance (is_nil g.failed_slots)
        else if fresh && not passed
        then advance false
        else waiting)
    else when_all_completed g

unfoldable pub mark_task : String → DispatchGroup → DispatchGroup
mark_task task_key g =
    if str_eq task_key ""
    then g
    else record g { completed_task_ids = task_key ∷ g.completed_task_ids }

unfoldable pub mark_slot : String → Bool → DispatchGroup → DispatchGroup
mark_slot slot_key passed g =
    if contains g.completed_slots slot_key
    then g
    else if passed
    then record g {
      completed_slots = slot_key ∷ g.completed_slots;
      success_slots = slot_key ∷ g.success_slots;
    }
    else record g {
      completed_slots = slot_key ∷ g.completed_slots;
      failed_slots = slot_key ∷ g.failed_slots;
    }

-- What a completion comes to, by the function's returns.
pub data Completion : Type 0 where
  no_group : Completion
  seen_task : Completion
  foreign_slot : DispatchGroup → Completion
  recorded : DispatchGroup → Verdict → Completion

unfoldable pub complete_slot : Completed → (passed : Bool) → Tasks → DispatchGroup → Completion
complete_slot c passed tasks g =
    if contains (slot_keys g) c.slot_key
    then (let g' = mark_slot c.slot_key passed g in
        recorded g' (
          join_verdict (not (contains g.completed_slots c.slot_key)) passed c.rollout_group_id tasks
            g'))
    else foreign_slot g

unfoldable pub complete_in_group : String → Completed → Bool → Tasks → DispatchGroup → Completion
complete_in_group task_key c passed tasks g =
    if not (str_eq task_key "") && contains g.completed_task_ids task_key
    then seen_task
    else complete_slot c passed tasks (mark_task task_key g)

-- The group that stays in the inflight map.
unfoldable pub remaining : Option DispatchGroup → Completion → Option DispatchGroup
remaining before no_group = none
remaining before seen_task = before
remaining before (foreign_slot g) = some g
remaining before (recorded g v) = if v.should_advance then none else some g

unfoldable pub completion_of : String → Completed → Bool → Tasks → Option DispatchGroup → Completion
completion_of task_key c passed tasks none = no_group
completion_of task_key c passed tasks (some g) = complete_in_group task_key c passed tasks g

unfoldable pub mark_agent_completed :
    (task_id agent_name : String) (exit_code : ℤ)
    → Tasks
    → Option DispatchGroup
    → Completion × Option DispatchGroup
mark_agent_completed task_id agent_name exit_code tasks inflight =
    let done =
      completion_of (trim_space task_id) (identify task_id agent_name tasks) (is_zero exit_code)
        tasks inflight in
    (done, remaining inflight done)

-- The lease of the issue is given up when the group is gone.
unfoldable pub releases_claim : Completion → Bool
releases_claim no_group = true
releases_claim (recorded g v) = v.should_advance
releases_claim _ = false
