-- ===== src/Machine/Completions/Examples.antt =====
-- Completions at concrete inputs.
use workbuddy.Prelude.{
  true, ◌≡◌, refl, false, none, some, [], ◌∷◌, pos, contains, str_eq, trim_space, trim_left,
  trim_right,
}
use workbuddy.Machine.Config.{State, Workflow, default_join_config}
use workbuddy.Machine.Groups.{
  DispatchGroup, mark_slot, mark_task, identify, complete_in_group, complete_slot, completion_of,
  join_verdict, mark_agent_completed, recorded, advance,
}
use workbuddy.Machine.Cycles.{no_cycles}
use workbuddy.Machine.Events.{Env}
use workbuddy.Machine.Completions.{
  IssueRuntime, completion_event, mark_agent_completed_with_decision,
}
use workbuddy.Machine.Completions.Gated.{Resolves, Hands, mark_agent_completed_with_decision-Hands}
use workbuddy.Machine.Completions.Followed.{
  IsFollowed, IsHalted, mark_agent_completed_with_decision-IsFollowed,
  mark_agent_completed_with_decision-IsHalted,
}

abbrev state : State
state = record {
  enter_label = "status:developing";
  agent = "dev-agent";
  agents = [];
  mode = "";
  join = default_join_config;
  rollouts = 0;
  transitions = [];
}

abbrev wf : Workflow
wf = record {
  name = "default";
  issue_label = "workbuddy";
  max_retries = 3;
  max_review_cycles = 3;
  states = ("developing", state) ∷ [];
}

abbrev group : DispatchGroup
group = record {
  workflow = "default";
  state = "developing";
  mode = "review";
  join = default_join_config;
  slots = ("dev-agent", "dev-agent") ∷ [];
  dispatched_slots = "dev-agent" ∷ [];
  completed_task_ids = [];
  completed_slots = [];
  success_slots = [];
  failed_slots = [];
}

abbrev issue : IssueRuntime
issue = record {
  st = record {
    has_instance = true;
    progress = record { cycles = no_cycles; current_state = "developing"; history = [] };
    inflight = some group;
    counts = [];
  };
  stuck = none;
}

abbrev env : Env
env = record {
  now = 100;
  tasks = [];
  unreadable = false;
  group_id = "g1";
  dependency_blocks = false;
  claim_blocks = false;
}

-- The only task of the group fails.
failed_group : Resolves false (mark_agent_completed "" "dev-agent" (pos 1) [] (some group)).0
unfolding mark_agent_completed completion_of complete_in_group complete_slot identify mark_task
    mark_slot join_verdict trim_space trim_left trim_right contains str_eq
failed_group = (_, _, refl, refl, refl)

mark_agent_completed_with_decision-Hands_example :
    Hands (mark_agent_completed "" "dev-agent" (pos 0) [] (some group)).0 (
      mark_agent_completed_with_decision
        (("default", wf) ∷ [])
        "o/r"
        7
        ""
        "dev-agent"
        (pos 0)
        ("workbuddy" ∷ "status:developing" ∷ [])
        none
        env
        issue)
mark_agent_completed_with_decision-Hands_example =
    mark_agent_completed_with_decision-Hands (("default", wf) ∷ []) "o/r" 7 "" "dev-agent" (pos 0)
      ("workbuddy" ∷ "status:developing" ∷ []) none env issue

abbrev passed_group : DispatchGroup
passed_group = record group { completed_slots = "dev-agent" ∷ []; success_slots = "dev-agent" ∷ [] }

-- The only task of the group passes.
passes :
    (mark_agent_completed "" "dev-agent" (pos 0) [] (some group)).0
    ≡ recorded passed_group (advance true)
unfolding mark_agent_completed completion_of complete_in_group complete_slot identify mark_task
    mark_slot join_verdict trim_space trim_left trim_right contains str_eq
passes = refl

mark_agent_completed_with_decision-IsFollowed_example :
    IsFollowed
      (("default", wf) ∷ [])
      (completion_event "o/r" 7 ("workbuddy" ∷ []))
      env
      none
      true
      passed_group
      (record issue.st { inflight = none })
      (mark_agent_completed_with_decision
        (("default", wf) ∷ [])
        "o/r"
        7
        ""
        "dev-agent"
        (pos 0)
        ("workbuddy" ∷ [])
        none
        env
        issue)
mark_agent_completed_with_decision-IsFollowed_example =
    mark_agent_completed_with_decision-IsFollowed (("default", wf) ∷ []) "o/r" 7 "" "dev-agent"
      (pos 0) ("workbuddy" ∷ []) none env issue true passed_group (advance true) passes refl

mark_agent_completed_with_decision-IsHalted_example : IsHalted env ("workbuddy" ∷ []) issue (
    mark_agent_completed_with_decision
      (("default", wf) ∷ [])
      "o/r"
      7
      ""
      "dev-agent"
      (pos 1)
      ("workbuddy" ∷ [])
      none
      env
      issue)
mark_agent_completed_with_decision-IsHalted_example =
    mark_agent_completed_with_decision-IsHalted (("default", wf) ∷ []) "o/r" 7 "" "dev-agent"
      (pos 1) ("workbuddy" ∷ []) none env issue failed_group
