-- ===== src/Machine/Handle/Examples.antt =====
-- Events of the poller at concrete inputs.
use workbuddy.Prelude.{String, ◌≡◌, ◌≢◌, refl, true, false, none, [], ◌∷◌, contains, lookup}
use workbuddy.Poller.{ChangeEvent, EventType, issue_created}
use workbuddy.Store.Keys.{issue_key_eq}
use workbuddy.Store.Hazards.{no_workflow_match}
use workbuddy.Machine.Config.{State, Workflow, default_join_config}
use workbuddy.Machine.Cycles.{no_cycles}
use workbuddy.Machine.Events.{Env}
use workbuddy.Machine.Completions.{find_matching_workflows}
use workbuddy.Machine.Handle.{
  Machine, HandleEnv, unmatched, is_cycle_done, event_key, key_of, handle_event,
}
use workbuddy.Machine.Handle.Effects.{SendsFor, handle_event-SendsFor}
use workbuddy.Machine.Handle.Reported.{IsNot, handle_event-IsNot}

abbrev state : State
state = record {
  enter_label = "status:developing";
  agent = "dev-agent";
  agents = [];
  mode = "";
  join = default_join_config;
  rollouts = 0;
  transitions = [];
}

abbrev wf : Workflow
wf = record {
  name = "default";
  issue_label = "workbuddy";
  max_retries = 3;
  max_review_cycles = 3;
  states = ("developing", state) ∷ [];
}

abbrev created : ChangeEvent
created = record {
  type = issue_created;
  repo = "o/r";
  issue_num = 7;
  labels = "workbuddy" ∷ "status:developing" ∷ [];
  detail = "title";
  author = "dev";
}

abbrev env : Env
env = record {
  now = 100;
  tasks = [];
  unreadable = false;
  group_id = "g1";
  dependency_blocks = false;
  claim_blocks = false;
}

abbrev henv : HandleEnv
henv = record {
  env = env;
  workflows = ("default", wf) ∷ [];
  labels_fingerprint = λ labels. "";
  hazard_fingerprint = λ labels source_hash. labels;
  declaration = none;
}

abbrev machine : Machine
machine = record {
  processed_events = [];
  hazards = [];
  cycles = no_cycles;
  inflight = none;
  counts = [];
  instances = [];
}

handle_event-SendsFor_example : SendsFor henv created (handle_event henv created machine)
handle_event-SendsFor_example = handle_event-SendsFor henv created machine

unseen : contains machine.processed_events (event_key created) ≡ false
unfolding contains
unseen = refl

handle_event-IsNot_example :
    (find_matching_workflows created.labels henv.workflows ≢ []
      → IsNot no_workflow_match
          (lookup (key_of created) (handle_event henv created machine).1.hazards))
    × (find_matching_workflows created.labels henv.workflows ≡ []
        → is_cycle_done created.type ≡ false
        → (env' : Env) (type : EventType) (detail author : String)
        → (handle_event
            (record henv { env = env' })
            (record created { type = type; detail = detail; author = author })
            (handle_event henv created machine).1).0
          ≢ unmatched true)
handle_event-IsNot_example = handle_event-IsNot henv created machine unseen refl
