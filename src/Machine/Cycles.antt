-- ===== src/Machine/Cycles.antt =====
-- internal/statemachine/statemachine.go: how often an issue may enter a state (applyDevReviewCycleCap,
-- enforceCycleCap, the total cap of processWorkflowEvent, recordStateEntry), over the rows of
-- internal/store/queries.go (issue_cycle_state) and of internal/workflow.
mod Caps
mod Bounds
mod Examples
use workbuddy.Prelude.{
  ℕ, suc, ◌+◌, ◌-◌, String, Bool, true, false, not, ◌&&◌, Option, none, some, List, [], ◌∷◌, ◌++◌,
  ltb, leb, ◌==◌, if◌then◌else◌, str_eq,
}
use mathlib.Core.List.{reverse}
use workbuddy.Machine.Config.{Workflow}

-- A row of issue_cycle_state. No row is a row of zeros, as each write starts from the defaults.
pub record CycleState : Type 0 where
  pub dev_review_cycle_count : ℕ
  pub synth_cycle_count : ℕ
  pub total_transitions : ℕ
  pub first_dispatch_at : Option ℕ
  pub cap_hit_at : Option ℕ
  pub synth_cap_hit_at : Option ℕ

abbrev pub no_cycles : CycleState
no_cycles = record {
  dev_review_cycle_count = 0;
  synth_cycle_count = 0;
  total_transitions = 0;
  first_dispatch_at = none;
  cap_hit_at = none;
  synth_cap_hit_at = none;
}

pub record Transition : Type 0 where
  pub from : String
  pub to : String

-- What the database holds of one issue and one workflow: the cycle row, and the workflow instance with
-- its history, newest last.
pub record Progress : Type 0 where
  pub cycles : CycleState
  pub current_state : String
  pub history : List Transition

-- `COALESCE(column, CURRENT_TIMESTAMP)`
abbrev pub first_stamp : ℕ → Option ℕ → Option ℕ
first_stamp now none = some now
first_stamp now (some t) = some t

abbrev pub max_total_transitions : ℕ
max_total_transitions = 15

abbrev pub default_max_review_cycles : ℕ
default_max_review_cycles = 3

abbrev pub default_max_synth_cycles : ℕ
default_max_synth_cycles = 2

pub record CycleCapSpec : Type 0 where
  pub synth : Bool
  pub max_cycles : ℕ
  pub emit_count_event : Bool
  pub alert_on_cap_hit : Bool
  pub heads_up : Bool

unfoldable pub dev_review_cycle_cap_spec : Workflow → CycleCapSpec
dev_review_cycle_cap_spec wf = record {
  synth = false;
  max_cycles =
      if wf.max_review_cycles == 0 then default_max_review_cycles else wf.max_review_cycles;
  emit_count_event = true;
  alert_on_cap_hit = true;
  heads_up = true;
}

unfoldable pub synth_cycle_cap_spec : Workflow → CycleCapSpec
synth_cycle_cap_spec wf = record {
  synth = true;
  max_cycles = default_max_synth_cycles;
  emit_count_event = false;
  alert_on_cap_hit = false;
  heads_up = false;
}

-- What is written to the event log and the alert bus, and the comment that is asked for.
pub data Notice : Type 0 where
  cycle_count cap_reached cap_alert cap_report approaching approaching_alert :
      (count max : ℕ) → Notice
  count_reset : Notice
  total_cap_reached total_cap_alert total_cap_report : (count : ℕ) → Notice

unfoldable pub count_of : CycleCapSpec → CycleState → ℕ
count_of spec c = if spec.synth then c.synth_cycle_count else c.dev_review_cycle_count

unfoldable pub increment : CycleCapSpec → CycleState → CycleState
increment spec c =
    if spec.synth
    then record c { synth_cycle_count = suc c.synth_cycle_count }
    else record c { dev_review_cycle_count = suc c.dev_review_cycle_count }

unfoldable pub mark_cap_hit : CycleCapSpec → ℕ → CycleState → CycleState
mark_cap_hit spec now c =
    if spec.synth
    then record c { synth_cap_hit_at = first_stamp now c.synth_cap_hit_at }
    else record c { cap_hit_at = first_stamp now c.cap_hit_at }

abbrev pub note_if : Bool → Notice → List Notice → List Notice
note_if true n ns = n ∷ ns
note_if false n ns = ns

pub record Ruling : Type 0 where
  pub blocked : Bool
  pub cycles : CycleState
  pub notices : List Notice

unfoldable pub enforce_cycle_cap : ℕ → CycleCapSpec → CycleState → Ruling
enforce_cycle_cap now spec c =
    let c' = increment spec c in
    let count = count_of spec c' in
    if leb spec.max_cycles count
    then record {
      blocked = true;
      cycles = mark_cap_hit spec now c';
      notices = note_if spec.emit_count_event (cycle_count count spec.max_cycles) (
          cap_reached count spec.max_cycles
          ∷ note_if spec.alert_on_cap_hit (cap_alert count spec.max_cycles)
              (cap_report count spec.max_cycles ∷ []));
    }
    else record {
      blocked = false;
      cycles = c';
      notices = note_if spec.emit_count_event (cycle_count count spec.max_cycles) (
          note_if (spec.heads_up && count == spec.max_cycles - 1)
            (approaching count spec.max_cycles)
            (note_if (spec.heads_up && count == spec.max_cycles - 1)
              (approaching_alert count spec.max_cycles) []));
    }

unfoldable pub source_of : String → List Transition → String
source_of to [] = ""
source_of to (t ∷ ts) = let rest = source_of to ts in if str_eq t.to to then t.from else rest

-- The loop runs over the history from its end.
unfoldable pub latest_transition_into_state : String → List Transition → String
latest_transition_into_state to history = source_of to (reverse history)

unfoldable pub review_cap_spec : Workflow → Progress → CycleCapSpec
review_cap_spec wf p =
    if str_eq (latest_transition_into_state "reviewing" p.history) "synthesizing"
    then synth_cycle_cap_spec wf
    else dev_review_cycle_cap_spec wf

unfoldable pub apply_dev_review_cycle_cap : ℕ → Workflow → Progress → (entered : String) → Ruling
apply_dev_review_cycle_cap now wf p entered =
    if not (str_eq entered "developing")
    then record { blocked = false; cycles = p.cycles; notices = [] }
    else if str_eq p.current_state "blocked"
    then record { blocked = false; cycles = no_cycles; notices = count_reset ∷ [] }
    else if not (str_eq p.current_state "reviewing")
    then record { blocked = false; cycles = p.cycles; notices = [] }
    else enforce_cycle_cap now (review_cap_spec wf p) p.cycles

unfoldable pub record_state_entry : String → Progress → Progress
record_state_entry entered p =
    if str_eq p.current_state ""
    then p
    else if str_eq p.current_state entered
    then p
    else record p {
      current_state = entered;
      history = p.history ++ record { from = p.current_state; to = entered } ∷ [];
    }

unfoldable pub touch_first_dispatch : ℕ → Progress → Progress
touch_first_dispatch now p = record p {
  cycles = record p.cycles { first_dispatch_at = first_stamp now p.cycles.first_dispatch_at };
}

pub record Entry : Type 0 where
  pub admitted : Bool
  pub progress : Progress
  pub notices : List Notice

-- After the caps: the entry is recorded, unless one of them was hit.
unfoldable pub admit : ℕ → String → Progress → Ruling → Entry
admit now entered p r =
    if r.blocked
    then record { admitted = false; progress = record p { cycles = r.cycles }; notices = r.notices }
    else record {
      admitted = true;
      progress =
          touch_first_dispatch now (record_state_entry entered (record p { cycles = r.cycles }));
      notices = r.notices;
    }

unfoldable pub count_total : Progress → Progress
count_total p = record p {
  cycles = record p.cycles { total_transitions = suc p.cycles.total_transitions };
}

-- `processWorkflowEvent`, on an event that enters a state with agents, up to the dispatch.
unfoldable pub enter_state :
    ℕ → Workflow → (resynced : Bool) → (entered : String) → Progress → Entry
enter_state now wf true entered p =
    admit now entered p (record { blocked = false; cycles = p.cycles; notices = [] })
enter_state now wf false entered p =
    let p' = count_total p in
    let total = p'.cycles.total_transitions in
    if ltb max_total_transitions total
    then record {
      admitted = false;
      progress = p';
      notices = total_cap_reached total ∷ total_cap_alert total ∷ total_cap_report total ∷ [];
    }
    else admit now entered p' (apply_dev_review_cycle_cap now wf p' entered)

-- ... and on one that enters a state without agents.
unfoldable pub enter_stateless : String → Progress → Progress
enter_stateless entered p = record_state_entry entered p
