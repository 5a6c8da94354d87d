-- ===== src/Store/Tasks/Queries.antt =====
-- The queries of internal/store/store.go over task_queue that the state machine asks.
use workbuddy.Prelude.{
  ℕ, suc, String, Bool, true, false, ◌&&◌, ◌||◌, str_leb, Option, none, some, [], ◌∷◌, ltb, ◌==◌,
  if◌then◌else◌, str_eq, trim_space, any, filter_by, length,
}
use mathlib.Core.List.{reverse}
use workbuddy.Store.Tasks.Row.{Status, completed, failed, timeout, Task, is_active, is_terminal}
use workbuddy.Store.Tasks.Queue.{Tasks}

abbrev pub of_issue : String → ℕ → Task → Bool
of_issue repo issue t = str_eq t.repo repo && t.issue_num == issue

unfoldable pub has_active_task : String → ℕ → String → Tasks → Bool
has_active_task repo issue agent tasks =
    any (λ t. of_issue repo issue t && str_eq t.agent_name agent && is_active t.status) tasks

unfoldable pub has_any_active_task : String → ℕ → Tasks → Bool
has_any_active_task repo issue tasks = any (λ t. of_issue repo issue t && is_active t.status) tasks

abbrev pub is_completed : Status → Bool
is_completed completed = true
is_completed _ = false

-- The loop of `CountConsecutiveAgentFailures`, over the rows newest first.
unfoldable pub leading_failures : Tasks → ℕ
leading_failures [] = 0
leading_failures (t ∷ ts) =
    let rest = leading_failures ts in if is_completed t.status then 0 else suc rest

abbrev pub settled_run : String → ℕ → String → Task → Bool
settled_run repo issue agent t =
    of_issue repo issue t && str_eq t.agent_name agent && is_terminal t.status

-- The table is in rowid order, which `ORDER BY rowid DESC` reverses.
unfoldable pub count_consecutive_agent_failures : String → ℕ → String → Tasks → ℕ
count_consecutive_agent_failures repo issue agent tasks =
    leading_failures (reverse (filter_by (settled_run repo issue agent) tasks))

pub record RolloutSummary : Type 0 where
  pub rollout_group_id : String
  pub rollouts_total : ℕ
  pub success_count : ℕ
  pub failed_count : ℕ
  pub terminal_count : ℕ
  pub pending_count : ℕ
  pub tasks : Tasks

-- One turn of the loop of `SummarizeRolloutGroup`.
unfoldable pub count_task : RolloutSummary → Task → RolloutSummary
count_task s t =
    let counted : RolloutSummary = elim t.status [
      | completed ↦ record s {
        success_count = suc s.success_count;
        terminal_count = suc s.terminal_count;
      }
      | failed ↦ record s {
        failed_count = suc s.failed_count;
        terminal_count = suc s.terminal_count;
      }
      | timeout ↦ record s {
        failed_count = suc s.failed_count;
        terminal_count = suc s.terminal_count;
      }
      | _ ↦ record s { pending_count = suc s.pending_count }
    ] in
    if ltb s.rollouts_total t.rollouts_total
    then record counted { rollouts_total = t.rollouts_total }
    else counted

unfoldable pub count_tasks : RolloutSummary → Tasks → RolloutSummary
count_tasks s [] = s
count_tasks s (t ∷ ts) = count_tasks (count_task s t) ts

unfoldable pub summarize_tasks : String → Tasks → Option RolloutSummary
summarize_tasks group [] = none
summarize_tasks group (t ∷ ts) =
    let s =
      count_tasks
        (record {
          rollout_group_id = group;
          rollouts_total = t.rollouts_total;
          success_count = 0;
          failed_count = 0;
          terminal_count = 0;
          pending_count = 0;
          tasks = t ∷ ts;
        })
        (t ∷ ts) in
    some (if s.rollouts_total == 0 then record s { rollouts_total = length (t ∷ ts) } else s)

-- `ORDER BY rollout_index, created_at, id`, by insertion: ids differ.
unfoldable pub rollout_before : Task → Task → Bool
rollout_before a b =
    ltb a.rollout_index b.rollout_index
    || (a.rollout_index == b.rollout_index
        && (ltb a.created_at b.created_at || (a.created_at == b.created_at && str_leb a.id b.id)))

unfoldable pub insert_by : (Task → Task → Bool) → Task → Tasks → Tasks
insert_by before t [] = t ∷ []
insert_by before t (u ∷ us) = if before t u then t ∷ u ∷ us else u ∷ insert_by before t us

unfoldable pub sort_by : (Task → Task → Bool) → Tasks → Tasks
sort_by before [] = []
sort_by before (t ∷ ts) = insert_by before t (sort_by before ts)

-- `ORDER BY created_at, id`
unfoldable pub older : Task → Task → Bool
older a b = ltb a.created_at b.created_at || (a.created_at == b.created_at && str_leb a.id b.id)

unfoldable pub list_issue_tasks : String → ℕ → Tasks → Tasks
list_issue_tasks repo issue tasks = sort_by older (filter_by (of_issue repo issue) tasks)

unfoldable pub list_tasks_by_rollout_group : String → Tasks → Tasks
list_tasks_by_rollout_group group tasks =
    if str_eq (trim_space group) ""
    then []
    else sort_by rollout_before
        (filter_by (λ t. str_eq t.rollout_group_id (trim_space group)) tasks)

unfoldable pub summarize_rollout_group : String → Tasks → Option RolloutSummary
summarize_rollout_group group tasks =
    summarize_tasks group (list_tasks_by_rollout_group group tasks)
