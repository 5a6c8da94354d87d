-- ===== src/Machine/Transitions/Examples.antt =====
-- Transitions at concrete inputs.
use workbuddy.Prelude.{◌-◌, ◌≤◌, String, List, [], ◌∷◌}
use workbuddy.Machine.Config.{State, Workflow, default_join_config}
use workbuddy.Machine.Transitions.{Count, count_of}
use workbuddy.Machine.Transitions.Retries.{
  Step, label_added, entered, takes, allowance, takes-bounded,
}

abbrev state : String → State
state label = record {
  enter_label = label;
  agent = "dev-agent";
  agents = [];
  mode = "";
  join = default_join_config;
  rollouts = 0;
  transitions = ("status:reviewing", "reviewing") ∷ ("status:developing", "developing") ∷ [];
}

abbrev wf : Workflow
wf = record {
  name = "default";
  issue_label = "workbuddy";
  max_retries = 3;
  max_review_cycles = 3;
  states = ("developing", state "status:developing") ∷ ("reviewing", state "status:reviewing") ∷ [];
}

abbrev counts : List Count
counts = record { from = "developing"; to = "reviewing"; count = 1 } ∷ []

abbrev steps : List Step
steps =
    label_added "developing" (state "status:developing") "status:reviewing"
      ("status:reviewing" ∷ [])
    ∷ entered "reviewing" "developing"
    ∷ []

takes-bounded_example :
    takes wf "developing" "reviewing" steps counts
    ≤ allowance wf - count_of "developing" "reviewing" counts
takes-bounded_example = takes-bounded wf "developing" "reviewing" steps counts
