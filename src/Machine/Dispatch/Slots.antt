-- ===== src/Machine/Dispatch/Slots.antt =====
-- What a dispatch puts in flight (internal/statemachine/statemachine.go).
use workbuddy.Prelude.{
  String, ◌≡◌, refl, ◌∙◌, ◌⊎◌, inl, inr, Bool, true, false, ◌&&◌, ◌||◌, Option, none, some, List,
  [], ◌∷◌, map, arith, str_eq, str_eq_iff, contains, insert, string_eq, Bool-cases,
}
use workbuddy.Store.Tasks.Queue.{Tasks}
use workbuddy.Machine.Config.{State, Workflow}
use workbuddy.Machine.Sets.{Distinct}
use workbuddy.Machine.Transitions.{
  state_agents, Resolved, rollouts, conflicting, invalid, resolve_state_rollouts,
}
use workbuddy.Machine.Groups.{DispatchGroup, slot_keys, new_dispatch_group}
use workbuddy.Machine.Groups.WellFormed.{IsWellFormed}
use workbuddy.Machine.Dispatch.{
  Request, dispatch_slot_key, requests_for, slots_of, join_of, dispatch_single_agent, dispatch_all,
  Dispatch, sent, start_group, with_rollouts, dispatch_agents, dispatch_state_agents,
}

abbrev pub request_keys : List Request → List String
request_keys = map dispatch_slot_key

abbrev keys : List (String × String) → List String
keys = map (λ (s : String × String). s.0)

contains-insert :
    (k v j : String) (m : List (String × String))
    → contains (keys (insert k v m)) j ≡ (str_eq k j || contains (keys m) j)
unfolding insert contains
contains-insert k v j [] = ground arith
contains-insert k v j ((i, w) ∷ m) =
    ground (arith, contains-insert k v j m, str_eq_iff i k, str_eq_iff i j, str_eq_iff k j)

Distinct-insert :
    (k v : String) (m : List (String × String)) → Distinct (keys m) → Distinct (keys (insert k v m))
unfolding insert
Distinct-insert k v [] d = (unfold contains in refl, tt)
Distinct-insert k v ((i, w) ∷ m) d = elim (Bool-cases (str_eq i k)) [
  | inl same ↦ rw same (rw (← (str_eq_iff i k).0 same) d)
  | inr other ↦ rw other (
    contains-insert k v i m ∙ ground (arith, d.0, other, str_eq_iff i k, str_eq_iff k i),
    Distinct-insert k v m d.1,
  )
]

contains-slots_of :
    (rs : List Request) (m : List (String × String)) (k : String)
    → contains (keys (slots_of rs m)) k ≡ (contains (request_keys rs) k || contains (keys m) k)
unfolding slots_of contains
contains-slots_of [] m k = refl
contains-slots_of (r ∷ rs) m k = ground (
  arith,
  contains-slots_of rs (insert (dispatch_slot_key r) r.agent_name m) k,
  contains-insert (dispatch_slot_key r) r.agent_name k m,
)

Distinct-slots_of :
    (rs : List Request) (m : List (String × String))
    → Distinct (keys m)
    → Distinct (keys (slots_of rs m))
unfolding slots_of
Distinct-slots_of [] m d = d
Distinct-slots_of (r ∷ rs) m d =
    Distinct-slots_of rs _ (Distinct-insert (dispatch_slot_key r) r.agent_name m d)

-- The group after the dispatch of its requests: nothing but the dispatched slots has changed, and what
-- was sent are requests of distinct slots, one for each slot that was not dispatched before.
record Dispatches (rs : List Request) (g : DispatchGroup) (out : List Request × DispatchGroup)
    : Type 0 where
  rest : out.1 ≡ record g { dispatched_slots = out.1.dispatched_slots }
  once : Distinct (request_keys out.0)
  fresh : (k : String) → (contains (request_keys out.0) k && contains g.dispatched_slots k) ≡ false
  each :
      (k : String)
      → (contains (request_keys out.0) k || contains g.dispatched_slots k)
        ≡ (contains (request_keys rs) k || contains g.dispatched_slots k)

same_contains : (i j : String) (xs : List String) → i ≡ j → contains xs i ≡ contains xs j
same_contains i j xs e = rw e refl

skipped-Dispatches :
    (r : Request) (rs : List Request) (g : DispatchGroup) (out : List Request × DispatchGroup)
    → contains g.dispatched_slots (dispatch_slot_key r) ≡ true
    → Dispatches rs g out
    → Dispatches (r ∷ rs) g out
unfolding contains
skipped-Dispatches r rs g out there t = record {
  rest = t.rest;
  once = t.once;
  fresh = t.fresh;
  each = λ k. ground (
    arith,
    t.each k,
    str_eq_iff (dispatch_slot_key r) k,
    same_contains (dispatch_slot_key r) k g.dispatched_slots,
    there,
  );
}

sent-Dispatches :
    (r : Request) (rs : List Request) (g : DispatchGroup) (out : List Request × DispatchGroup)
    → contains g.dispatched_slots (dispatch_slot_key r) ≡ false
    → Dispatches rs (record g { dispatched_slots = dispatch_slot_key r ∷ g.dispatched_slots }) out
    → Dispatches (r ∷ rs) g (r ∷ out.0, out.1)
unfolding contains
sent-Dispatches r rs g out absent t = record {
  rest = t.rest;
  once = (
    ground (
      arith,
      t.fresh (dispatch_slot_key r),
      (str_eq_iff (dispatch_slot_key r) (dispatch_slot_key r)).1 refl,
    ),
    t.once,
  );
  fresh = λ k. ground (
    arith,
    t.fresh k,
    str_eq_iff (dispatch_slot_key r) k,
    same_contains (dispatch_slot_key r) k g.dispatched_slots,
    absent,
  );
  each = λ k. ground (arith, t.each k);
}

dispatch_all-Dispatches :
    (rs : List Request) (g : DispatchGroup) → Dispatches rs g (dispatch_all rs g)
unfolding dispatch_all dispatch_single_agent contains
dispatch_all-Dispatches [] g = record {
  rest = refl;
  once = tt;
  fresh = λ k. refl;
  each = λ k. refl;
}
dispatch_all-Dispatches (r ∷ rs) g =
    elim (Bool-cases (contains g.dispatched_slots (dispatch_slot_key r))) [
      | inl there ↦
          rw there
            (skipped-Dispatches r rs g (dispatch_all rs g) there (dispatch_all-Dispatches rs g))
      | inr absent ↦ rw absent (
          sent-Dispatches r rs g _ absent (
            dispatch_all-Dispatches rs
              (record g { dispatched_slots = dispatch_slot_key r ∷ g.dispatched_slots })))
    ]

-- A group that has just been put in flight: well formed and without an outcome, and the requests that
-- went out are of distinct slots, and of all of its slots.
pub record IsStarted (out : List Request) (g : DispatchGroup) : Type 0 where
  pub formed : IsWellFormed g
  pub unfailed : g.failed_slots ≡ []
  pub unpassed : g.success_slots ≡ []
  pub once : Distinct (request_keys out)
  pub covers : (k : String) → contains (request_keys out) k ≡ contains (slot_keys g) k

start-IsStarted :
    (workflow state mode : String) (s : State) (rs : List Request)
    → let out =
        dispatch_all rs (new_dispatch_group workflow state mode (join_of s) (slots_of rs [])) in
      IsStarted out.0 out.1
unfolding new_dispatch_group contains
start-IsStarted workflow state mode s rs =
    let g = new_dispatch_group workflow state mode (join_of s) (slots_of rs []) in
    let t = dispatch_all-Dispatches rs g in
    let keyed = Distinct-slots_of rs [] tt in
    let covered = contains-slots_of rs [] in
    rw t.rest (record {
      formed = record {
        keyed = keyed;
        distinct = tt;
        within = λ k h. absurd (ground arith);
        split = λ k. refl;
        apart = λ k. refl;
      };
      unfailed = refl;
      unpassed = refl;
      once = t.once;
      covers = λ k. ground (arith, t.each k, covered k);
    })

-- What a dispatch comes to, given the group that was in flight and what is left of it once a stale one
-- has been dropped.
abbrev pub Started :
    Option DispatchGroup → Option DispatchGroup → Dispatch → Option DispatchGroup → Type 0
Started before fresh (sent out) none = ⊥
Started before fresh (sent out) (some g) = (fresh ≡ none) × IsStarted out g
Started before fresh _ after = (after ≡ before) ⊎ (after ≡ fresh)

group-Started :
    (wf : Workflow) (s : State) (base : Request) (rs : List Request)
    (before fresh : Option DispatchGroup)
    → let out = start_group wf s base rs fresh in Started before fresh out.0 out.1
unfolding start_group
group-Started wf s base rs before (some existing) = inr refl
group-Started wf s base rs before none = (refl, start-IsStarted wf.name base.state _ s rs)

rollouts-Started :
    (wf : Workflow) (s : State) (base : Request) (agents : List String) (group_id : String)
    (r : Resolved) (tasks : Tasks) (before fresh : Option DispatchGroup)
    → let out = with_rollouts wf s base agents group_id r tasks fresh in
      Started before fresh out.0 out.1
unfolding with_rollouts
rollouts-Started wf s base agents group_id (rollouts n) tasks before fresh =
    group-Started wf s base (requests_for wf s base agents group_id n tasks) before fresh
rollouts-Started wf s base agents group_id (conflicting l) tasks before fresh = inr refl
rollouts-Started wf s base agents group_id (invalid l) tasks before fresh = inr refl

-- `dispatchStateAgents` requests something only where no group of the issue is in flight, a stale one
-- aside. Then the group that it puts in flight is well formed and without an outcome, and it has
-- requested each of its slots exactly once, however the requests came about (several agents, rollouts,
-- or the inherited rollouts of the state before). In all other cases nothing goes out, and the group in
-- flight is as before, or as the reconciliation left it.
pub dispatch_state_agents-Started :
    (wf : Workflow) (s : State) (base : Request) (labels : List String) (group_id : String)
    (dep claim : Bool) (reconcile : Option DispatchGroup → Option DispatchGroup) (tasks : Tasks)
    (inflight : Option DispatchGroup)
    → let out =
        dispatch_state_agents wf s base labels group_id dep claim reconcile tasks inflight in
      Started inflight (reconcile inflight) out.0 out.1
unfolding dispatch_state_agents dispatch_agents
dispatch_state_agents-Started wf s base labels group_id dep claim reconcile tasks inflight =
    go (state_agents s)
  where
    go :
        (agents : List String)
        → let out =
            dispatch_agents wf s base agents labels group_id dep claim reconcile tasks inflight in
          Started inflight (reconcile inflight) out.0 out.1
    go [] = inl refl
    go (a ∷ agents) = elim (Bool-cases dep) [
      | inl yes_dep ↦ rw yes_dep (inl refl)
      | inr no_dep ↦ elim (Bool-cases claim) [
        | inl yes_claim ↦ rw (no_dep, yes_claim) (inr refl)
        | inr no_claim ↦
            rw (no_dep, no_claim)
              (rollouts-Started wf s _ (a ∷ agents) group_id (resolve_state_rollouts s labels) tasks
                inflight (reconcile inflight))
      ]
    ]
