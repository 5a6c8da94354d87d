-- ===== src/Machine/Dispatch/Examples.antt =====
-- A dispatch at concrete inputs.
use workbuddy.Prelude.{false, Option, none, [], ◌∷◌}
use workbuddy.Machine.Config.{State, Workflow, default_join_config}
use workbuddy.Machine.Groups.{DispatchGroup}
use workbuddy.Machine.Dispatch.{Request, dispatch_state_agents}
use workbuddy.Machine.Dispatch.Slots.{Started, dispatch_state_agents-Started}

abbrev state : State
state = record {
  enter_label = "status:reviewing";
  agent = "";
  agents = "review-agent" ∷ "security-agent" ∷ "review-agent" ∷ [];
  mode = "";
  join = default_join_config;
  rollouts = 0;
  transitions = [];
}

abbrev wf : Workflow
wf = record {
  name = "default";
  issue_label = "workbuddy";
  max_retries = 3;
  max_review_cycles = 3;
  states = ("reviewing", state) ∷ [];
}

abbrev base : Request
base = record {
  repo = "o/r";
  issue_num = 7;
  agent_name = "";
  workflow = "default";
  state = "reviewing";
  source_state = "developing";
  rollout_index = 0;
  rollouts_total = 0;
  rollout_group_id = "";
}

abbrev keep : Option DispatchGroup → Option DispatchGroup
keep inflight = inflight

dispatch_state_agents-Started_example :
    let out = dispatch_state_agents wf state base [] "g1" false false keep [] none in
    Started none (keep none) out.0 out.1
dispatch_state_agents-Started_example =
    dispatch_state_agents-Started wf state base [] "g1" false false keep [] none
