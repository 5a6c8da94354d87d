-- ===== src/Machine/Claiming/Examples.antt =====
-- Two coordinators at concrete inputs.
use workbuddy.Prelude.{
  if◌then◌else◌, ◌≢◌, insert, trim_space, ◌≡◌, refl, inl, arith, false, none, some, [], ◌∷◌, str_eq,
  lookup,
}
use workbuddy.Poller.{ChangeEvent, issue_created}
use workbuddy.Store.Keys.{issue_key_eq, key_eq}
use workbuddy.Store.Claims.{
  Claims, acquire_issue_claim, acquire_once, against_holder, expired, lease_of,
}
use workbuddy.Dependency.{is_blocked}
use workbuddy.Dependency.Evaluate.Reopened.{gate_blocks}
use workbuddy.Machine.Config.{State, Workflow, default_join_config}
use workbuddy.Machine.Cycles.{no_cycles}
use workbuddy.Machine.Events.{Env}
use workbuddy.Machine.Handle.{Machine, HandleEnv, key_of, handle_event}
use workbuddy.Machine.Handle.Effects.{requests_handled}
use workbuddy.Machine.Claiming.{
  Coordinator, is_blocked_by_issue_claim, release_claim, after_acquire, lease_or_default,
}
use workbuddy.Machine.Claiming.Returned.{release_claim-returned}
use workbuddy.Machine.Claiming.Exclusive.{IsHeld, handle_event-excluded}

abbrev state : State
state = record {
  enter_label = "status:developing";
  agent = "dev-agent";
  agents = [];
  mode = "";
  join = default_join_config;
  rollouts = 0;
  transitions = [];
}

abbrev wf : Workflow
wf = record {
  name = "default";
  issue_label = "workbuddy";
  max_retries = 3;
  max_review_cycles = 3;
  states = ("developing", state) ∷ [];
}

abbrev created : ChangeEvent
created = record {
  type = issue_created;
  repo = "o/r";
  issue_num = 7;
  labels = "workbuddy" ∷ "status:developing" ∷ [];
  detail = "title";
  author = "dev";
}

-- A rival holds the issue until 200.
abbrev claims : Claims
claims =
    (
      record { repo = "o/r"; issue_num = 7 },
      record { worker_id = "rival"; claim_token = "t"; acquired_at = 0; expires_at = 200 },
    )
    ∷ []

abbrev coordinator : Coordinator
coordinator = record { claimer_id = "me"; lease = 0; tokens = [] }

abbrev env : Env
env = record {
  now = 100;
  tasks = [];
  unreadable = false;
  group_id = "g1";
  dependency_blocks = gate_blocks (is_blocked (some none));
  claim_blocks = (is_blocked_by_issue_claim 100 "mine" (key_of created) none coordinator claims).0;
}

abbrev henv : HandleEnv
henv = record {
  env = env;
  workflows = ("default", wf) ∷ [];
  labels_fingerprint = λ labels. "";
  hazard_fingerprint = λ labels source_hash. labels;
  declaration = none;
}

abbrev machine : Machine
machine = record {
  processed_events = [];
  hazards = [];
  cycles = no_cycles;
  inflight = none;
  counts = [];
  instances = [];
}

named : str_eq "me" "" ≡ false
unfolding str_eq
named = refl

held : IsHeld 100 "me" (lookup (key_of created) claims)
unfolding lookup key_eq str_eq
held = ((λ e. cc), ground arith)

handle_event-excluded_example : requests_handled (handle_event henv created machine).0 ≡ []
handle_event-excluded_example =
    handle_event-excluded henv created machine "mine" none coordinator claims none refl refl named
      (inl held)

-- The rival's lease has run out.
passed : (is_blocked_by_issue_claim 300 "mine" (key_of created) none coordinator claims).0 ≡ false
unfolding is_blocked_by_issue_claim acquire_issue_claim acquire_once against_holder expired lease_of
    lease_or_default after_acquire trim_space lookup key_eq str_eq
passed = refl

told :
    lookup
      (key_of created)
      (is_blocked_by_issue_claim 300 "mine" (key_of created) none coordinator claims).1.tokens
    ≢ some ""
unfolding is_blocked_by_issue_claim acquire_issue_claim acquire_once against_holder expired lease_of
    lease_or_default after_acquire trim_space lookup insert key_eq str_eq
told = λ e. cc

release_claim-returned_example :
    let (_, c', claims') =
      is_blocked_by_issue_claim 300 "mine" (key_of created) none coordinator claims in
    let (released, left) = release_claim (key_of created) c' claims' in
    (lookup (key_of created) left
      ≡ (if key_eq (key_of created) (key_of created) then none else lookup (key_of created) claims))
    × (lookup (key_of created) released.tokens ≡ none)
release_claim-returned_example =
    release_claim-returned 300 "mine" (key_of created) (key_of created) none coordinator claims
      named passed told
