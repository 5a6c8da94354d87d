-- ===== src/Router/Rows.antt =====
-- The rows that the requests of an issue become (internal/router/router.go, internal/taskprep/taskprep.go).
use workbuddy.Prelude.{
  ℕ, String, ◌≡◌, refl, sym, subst, ◌∙◌, inl, inr, Bool, true, false, not, ◌||◌, Option, none, some,
  List, [], ◌∷◌, ◌++◌, lookup, string_eq, if◌then◌else◌, Bool-cases, str_eq, str_eq_iff, contains,
  ◌==◌, arith, pos,
}
use mathlib.Core.List.{append-nil, append_assoc}
use workbuddy.Dependency.{DependencyVerdict, IssueDependencyState, is_blocked}
use workbuddy.Store.Rows.{affected}
use workbuddy.Store.Tasks.Row.{Task, pending, has_id}
use workbuddy.Store.Tasks.Queue.{Tasks, insert_task}
use workbuddy.Machine.Config.{Workflow}
use workbuddy.Machine.Dispatch.{Request}
use workbuddy.Router.{
  AgentConfig, Decision, decide, decide_agent, decide_gate, task_record, prepare, handle_decided,
  handle_dispatch, run,
}

-- The row for a request: waiting, leased by nobody, with the role and the runtime of its agent.
unfoldable pub row_of : ℕ → AgentConfig → String → Request → Task
row_of now agent id req = record {
  id = id;
  repo = req.repo;
  issue_num = req.issue_num;
  agent_name = req.agent_name;
  role = agent.role;
  runtime = agent.runtime;
  workflow = req.workflow;
  state = req.state;
  worker_id = some "";
  claim_token = some "";
  status = pending;
  lease_expires_at = none;
  acked_at = none;
  heartbeat_at = none;
  completed_at = none;
  exit_code = pos 0;
  session_refs = "[]";
  rollout_index = req.rollout_index;
  rollouts_total = if req.rollouts_total == 0 then 1 else req.rollouts_total;
  rollout_group_id = req.rollout_group_id;
  created_at = now;
  updated_at = now;
}

unfoldable pub rows_for : ℕ → Option AgentConfig → String → Request → List Task
rows_for now none id req = []
rows_for now (some agent) id req = row_of now agent id req ∷ []

-- One row for each request whose agent is known, in the order of the requests.
unfoldable pub rows_of : ℕ → List (String × AgentConfig) → List (String × Request) → List Task
rows_of now agents [] = []
rows_of now agents ((id, req) ∷ reqs) =
    rows_for now (lookup req.agent_name agents) id req ++ rows_of now agents reqs

unfoldable pub ids_of : List (String × Request) → List String
ids_of [] = []
ids_of ((id, req) ∷ reqs) = id ∷ ids_of reqs

-- The ids are new to the table and to each other.
abbrev pub AreFresh : Tasks → List String → Type 0
AreFresh tasks [] = Unit
AreFresh tasks (id ∷ ids) =
    (affected (has_id id) tasks ≡ false) × (contains ids id ≡ false) × AreFresh tasks ids

unfoldable pub lets_through : Option (Bool × Option DependencyVerdict) → Bool
lets_through none = false
lets_through (some (blocked, verdict)) = not blocked

affected-append :
    (id : String) (tasks : Tasks) (t : Task)
    → affected (has_id id) (tasks ++ t ∷ []) ≡ (affected (has_id id) tasks || str_eq t.id id)
unfolding affected
affected-append id [] t = ground arith
affected-append id (u ∷ tasks) t = ground (arith, affected-append id tasks t)

append-AreFresh :
    (tasks : Tasks) (t : Task) (ids : List String)
    → contains ids t.id ≡ false
    → AreFresh tasks ids
    → AreFresh (tasks ++ t ∷ []) ids
unfolding contains
append-AreFresh tasks t [] h k = tt
append-AreFresh tasks t (id ∷ ids) h (a, d, k) = (
  ground (arith, affected-append id tasks t, a, h, str_eq_iff t.id id, str_eq_iff id t.id),
  d,
  append-AreFresh tasks t ids (ground (arith, h)) k,
)

prepare-row :
    (now : ℕ) (id : String) (d : Decision) (tasks : Tasks)
    → affected (has_id id) tasks ≡ false
    → (prepare now id d tasks).1 ≡ tasks ++ row_of now d.agent id d.request ∷ []
unfolding prepare insert_task task_record row_of str_eq
prepare-row now id d tasks h = rw h refl

gated-verdict :
    (wfs : List (String × Workflow)) (agent : AgentConfig) (now : ℕ) (id : String) (req : Request)
    (tasks : Tasks) (o : Option (Bool × Option DependencyVerdict))
    → lets_through o ≡ false
    → handle_decided now id (decide_gate wfs agent req o) tasks ≡ tasks
unfolding handle_decided decide_gate lets_through
gated-verdict wfs agent now id req tasks none h = refl
gated-verdict wfs agent now id req tasks (some (true, v)) h = refl
gated-verdict wfs agent now id req tasks (some (false, v)) h = absurd (ground (arith, h))

gated-agent :
    (wfs : List (String × Workflow)) (gate : Option (Option IssueDependencyState)) (now : ℕ)
    (id : String) (req : Request) (tasks : Tasks) (o : Option AgentConfig)
    → lets_through (is_blocked gate) ≡ false
    → handle_decided now id (decide_agent wfs gate req o) tasks ≡ tasks
unfolding decide_agent
gated-agent wfs gate now id req tasks none h = unfold handle_decided in refl
gated-agent wfs gate now id req tasks (some agent) h =
    gated-verdict wfs agent now id req tasks (is_blocked gate) h

let-verdict :
    (wfs : List (String × Workflow)) (agent : AgentConfig) (now : ℕ) (id : String) (req : Request)
    (tasks : Tasks) (o : Option (Bool × Option DependencyVerdict))
    → lets_through o ≡ true
    → affected (has_id id) tasks ≡ false
    → handle_decided now id (decide_gate wfs agent req o) tasks
      ≡ tasks ++ row_of now agent id req ∷ []
unfolding handle_decided decide_gate lets_through
let-verdict wfs agent now id req tasks none h a = absurd (ground (arith, h))
let-verdict wfs agent now id req tasks (some (true, v)) h a = absurd (ground (arith, h))
let-verdict wfs agent now id req tasks (some (false, v)) h a = prepare-row now id _ tasks a

let-agent :
    (wfs : List (String × Workflow)) (gate : Option (Option IssueDependencyState)) (now : ℕ)
    (id : String) (req : Request) (tasks : Tasks) (o : Option AgentConfig)
    → lets_through (is_blocked gate) ≡ true
    → affected (has_id id) tasks ≡ false
    → handle_decided now id (decide_agent wfs gate req o) tasks ≡ tasks ++ rows_for now o id req
unfolding decide_agent rows_for
let-agent wfs gate now id req tasks none h a = unfold handle_decided in (sym (append-nil tasks))
let-agent wfs gate now id req tasks (some agent) h a =
    let-verdict wfs agent now id req tasks (is_blocked gate) h a

rows_for-AreFresh :
    (now : ℕ) (o : Option AgentConfig) (id : String) (req : Request) (tasks : Tasks)
    (ids : List String)
    → contains ids id ≡ false
    → AreFresh tasks ids
    → AreFresh (tasks ++ rows_for now o id req) ids
unfolding rows_for
rows_for-AreFresh now none id req tasks ids h f =
    subst (λ ts. AreFresh ts ids) (sym (append-nil tasks)) f
rows_for-AreFresh now (some agent) id req tasks ids h f =
    append-AreFresh tasks (row_of now agent id req) ids (unfold row_of in h) f

run-let :
    (agents : List (String × AgentConfig)) (wfs : List (String × Workflow))
    (gate : Option (Option IssueDependencyState)) (now : ℕ) (reqs : List (String × Request))
    (tasks : Tasks)
    → lets_through (is_blocked gate) ≡ true
    → AreFresh tasks (ids_of reqs)
    → run agents wfs gate now reqs tasks ≡ tasks ++ rows_of now agents reqs
unfolding run rows_of ids_of handle_dispatch decide
run-let agents wfs gate now [] tasks h f = sym (append-nil tasks)
run-let agents wfs gate now ((id, req) ∷ reqs) tasks h (a, d, f) =
    let o = lookup req.agent_name agents in
    rw (let-agent wfs gate now id req tasks o h a) (
      run-let agents wfs gate now reqs (tasks ++ rows_for now o id req) h
        (rows_for-AreFresh now o id req tasks (ids_of reqs) d f)
      ∙ append_assoc tasks (rows_for now o id req) (rows_of now agents reqs))

decide-gated :
    (agents : List (String × AgentConfig)) (wfs : List (String × Workflow))
    (gate : Option (Option IssueDependencyState)) (now : ℕ) (id : String) (req : Request)
    (tasks : Tasks)
    → lets_through (is_blocked gate) ≡ false
    → handle_dispatch agents wfs gate now id req tasks ≡ tasks
unfolding handle_dispatch decide
decide-gated agents wfs gate now id req tasks h =
    gated-agent wfs gate now id req tasks (lookup req.agent_name agents) h

run-gated :
    (agents : List (String × AgentConfig)) (wfs : List (String × Workflow))
    (gate : Option (Option IssueDependencyState)) (now : ℕ) (reqs : List (String × Request))
    (tasks : Tasks)
    → lets_through (is_blocked gate) ≡ false
    → run agents wfs gate now reqs tasks ≡ tasks
unfolding run
run-gated agents wfs gate now [] tasks h = refl
run-gated agents wfs gate now ((id, req) ∷ reqs) tasks h =
    run-gated agents wfs gate now reqs (handle_dispatch agents wfs gate now id req tasks) h
    ∙ decide-gated agents wfs gate now id req tasks h

-- Where the gate lets the issue through and the ids are fresh, the requests append one row each to the table,
-- in their order, but for those whose agent is not known: the row waits, is leased by nobody, and has the
-- request's agent, state and rollout. Where the gate blocks the issue or cannot be read, the table stays.
pub run-rows :
    (agents : List (String × AgentConfig)) (wfs : List (String × Workflow))
    (gate : Option (Option IssueDependencyState)) (now : ℕ) (reqs : List (String × Request))
    (tasks : Tasks)
    → AreFresh tasks (ids_of reqs)
    → run agents wfs gate now reqs tasks
      ≡ (if lets_through (is_blocked gate) then tasks ++ rows_of now agents reqs else tasks)
run-rows agents wfs gate now reqs tasks f = elim (Bool-cases (lets_through (is_blocked gate))) [
  | inl e ↦ rw e (run-let agents wfs gate now reqs tasks e f)
  | inr e ↦ rw e (run-gated agents wfs gate now reqs tasks e)
]
