-- ===== src/Router/Examples.antt =====
-- Routed requests at concrete inputs.
use workbuddy.Prelude.{
  String, ◌≡◌, refl, none, some, List, [], ◌∷◌, contains, string_eq, if◌then◌else◌,
}
use workbuddy.Store.Rows.{affected}
use workbuddy.Dependency.{is_blocked}
use workbuddy.Machine.Dispatch.{Request}
use workbuddy.Router.{AgentConfig, run}
use workbuddy.Router.Rows.{rows_of, ids_of, AreFresh, lets_through, run-rows}

abbrev agents : List (String × AgentConfig)
agents = ("dev-agent", record { role = "dev"; runtime = "codex" }) ∷ []

abbrev req : Request
req = record {
  repo = "o/r";
  issue_num = 7;
  agent_name = "dev-agent";
  workflow = "default";
  state = "developing";
  source_state = "";
  rollout_index = 0;
  rollouts_total = 0;
  rollout_group_id = "";
}

abbrev reqs : List (String × Request)
reqs = ("t1", req) ∷ []

fresh : AreFresh [] (ids_of reqs)
unfolding affected ids_of contains
fresh = (refl, refl, tt)

run-rows_example :
    run agents [] (some none) 5 reqs []
    ≡ (if lets_through (is_blocked (some none)) then rows_of 5 agents reqs else [])
run-rows_example = run-rows agents [] (some none) 5 reqs [] fresh
