-- ===== src/Machine/Groups/Examples.antt =====
-- Dispatch groups at concrete inputs.
use workbuddy.Prelude.{String, ◌≡◌, ◌≢◌, refl, some, [], ◌∷◌, trim_space, pos, str_eq, contains}
use workbuddy.Store.Rows.{find_row}
use workbuddy.Machine.Config.{join_all_passed, join_any_passed}
use workbuddy.Machine.Groups.{
  DispatchGroup, new_dispatch_group, seen_task, mark_agent_completed, remaining, completion_of,
  complete_in_group, complete_slot, mark_task, identify, join_verdict, mark_slot,
}
use workbuddy.Machine.Groups.WellFormed.{new_dispatch_group-IsWellFormed}
use workbuddy.Machine.Groups.Reported.{Reported}
use workbuddy.Machine.Groups.Joins.{IsAllOpen, AllDecided, mark_agent_completed-AllDecided}
use workbuddy.Machine.Groups.AnyPassed.{IsAnyOpen, AnyDecided, mark_agent_completed-AnyDecided}
use workbuddy.Machine.Groups.Runs.{Report, mark_agent_completed-repeats}

group : String → DispatchGroup
group strategy =
    new_dispatch_group "default" "reviewing" "review"
      (record { strategy = strategy; min_successes = 0 })
      (("review-agent", "review-agent") ∷ ("security-agent", "security-agent") ∷ [])

abbrev report : Report
report = record { task_id = "t1"; agent_name = "review-agent"; exit_code = pos 0; tasks = [] }

all_open : IsAllOpen (group join_all_passed)
unfolding group new_dispatch_group contains str_eq
all_open = record {
  joins = refl;
  formed = new_dispatch_group-IsWellFormed (group join_all_passed) (refl, (refl, tt));
  unfailed = refl;
}

any_open : IsAnyOpen (group join_any_passed)
unfolding group new_dispatch_group contains str_eq
any_open = record {
  joins = refl;
  formed = new_dispatch_group-IsWellFormed (group join_any_passed) (refl, (refl, tt));
  unpassed = refl;
}

mark_agent_completed-AllDecided_example :
    let done =
      (mark_agent_completed "t1" "review-agent" (pos 0) [] (some (group join_all_passed))).0 in
    Reported "t1" "review-agent" (pos 0) [] (group join_all_passed) done × AllDecided done
mark_agent_completed-AllDecided_example =
    mark_agent_completed-AllDecided "t1" "review-agent" (pos 0) [] (group join_all_passed) all_open

mark_agent_completed-AnyDecided_example :
    let done =
      (mark_agent_completed "t1" "review-agent" (pos 0) [] (some (group join_any_passed))).0 in
    Reported "t1" "review-agent" (pos 0) [] (group join_any_passed) done × AnyDecided done
mark_agent_completed-AnyDecided_example =
    mark_agent_completed-AnyDecided "t1" "review-agent" (pos 0) [] (group join_any_passed) any_open

abbrev left : DispatchGroup
left = record (group join_all_passed) {
  completed_task_ids = "t1" ∷ [];
  completed_slots = "review-agent" ∷ [];
  success_slots = "review-agent" ∷ [];
}

stays :
    (mark_agent_completed "t1" "review-agent" (pos 0) [] (some (group join_all_passed))).1
    ≡ some left
unfolding mark_agent_completed remaining completion_of complete_in_group str_eq trim_space contains
    group new_dispatch_group complete_slot mark_task identify find_row join_verdict mark_slot
stays = refl

named : trim_space "t1" ≢ ""
unfolding trim_space
named e = cc

mark_agent_completed-repeats_example :
    mark_agent_completed "t1" "security-agent" (pos 1) [] (some left) ≡ (seen_task, some left)
mark_agent_completed-repeats_example =
    mark_agent_completed-repeats report
      (record { task_id = "t1"; agent_name = "security-agent"; exit_code = pos 1; tasks = [] })
      (group join_all_passed) left named refl stays
