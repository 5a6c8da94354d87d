-- ===== src/Machine/Transitions.antt =====
-- internal/statemachine/statemachine.go: which transition an added label takes (evaluateTransitions,
-- isBackEdge, transitionAllowedForState, resolveStateRollouts), over the rows of transition_counts.
mod Rollouts
mod Retries
mod Examples
use workbuddy.Prelude.{
  ℕ, zero, suc, String, Bool, true, false, not, ◌&&◌, ◌||◌, Option, none, some, List, [], ◌∷◌, ltb,
  leb, ◌==◌, if◌then◌else◌, str_eq, has_prefix, trim_space, any, lookup, string_eq,
}
use workbuddy.Machine.Config.{State, Workflow, state_mode_review}

unfoldable pub state_agents : State → List String
state_agents s = elim s.agents [
  | [] ↦ if str_eq s.agent "" then [] else s.agent ∷ []
  | a ∷ rest ↦ a ∷ rest
]

unfoldable pub state_mode : State → String
state_mode s = if str_eq (trim_space s.mode) "" then state_mode_review else s.mode

-- What a label says of rollouts.
pub data Named : Type 0 where
  plain invalid_label : Named
  number : ℕ → Named

unfoldable pub names : String → Named
names label =
    let l = trim_space label in
    if not (has_prefix l "rollouts:")
    then plain
    else if str_eq l "rollouts:2"
    then number 2
    else if str_eq l "rollouts:3"
    then number 3
    else if str_eq l "rollouts:4"
    then number 4
    else if str_eq l "rollouts:5"
    then number 5
    else invalid_label

pub data Resolved : Type 0 where
  rollouts : ℕ → Resolved
  conflicting invalid : String → Resolved

-- The loop over the labels; an override of 0 is none.
unfoldable pub scan_label : String → Named → ℕ → (ℕ → Resolved) → Resolved
scan_label label plain override rest = rest override
scan_label label invalid_label override rest = invalid label
scan_label label (number n) override rest =
    if not (override == 0) && not (override == n) then conflicting label else rest n

unfoldable pub scan : List String → ℕ → Resolved
scan [] override = rollouts override
scan (l ∷ ls) override = scan_label (trim_space l) (names l) override (scan ls)

unfoldable pub default_rollouts : State → ℕ
default_rollouts s = if ltb 0 s.rollouts then s.rollouts else 1

abbrev pub or_default : ℕ → Resolved → Resolved
or_default default (rollouts n) = if ltb 0 n then rollouts n else rollouts default
or_default default error = error

unfoldable pub resolve_state_rollouts : State → List String → Resolved
resolve_state_rollouts s labels = or_default (default_rollouts s) (scan labels 0)

unfoldable pub has_synth_target : List (String × String) → Bool
has_synth_target [] = false
has_synth_target ((l, target) ∷ ts) = str_eq target "synthesizing" || has_synth_target ts

unfoldable pub allowed_with : Resolved → (label target : String) → Bool
allowed_with (rollouts n) label target =
    if str_eq target "synthesizing"
    then ltb 1 n
    else if str_eq target "reviewing" && str_eq label "status:reviewing"
    then leb n 1
    else true
allowed_with _ label target = false

unfoldable pub transition_allowed_for_state :
    (name : String) → State → (label target : String) → List String → Bool
transition_allowed_for_state name s label target labels =
    if not (str_eq name "developing")
    then true
    else if not (has_synth_target s.transitions)
    then true
    else allowed_with (resolve_state_rollouts s labels) label target

-- A row of transition_counts of the issue.
pub record Count : Type 0 where
  pub from : String
  pub to : String
  pub count : ℕ

abbrev pub is_edge : String → String → Count → Bool
is_edge from to c = str_eq c.from from && str_eq c.to to

unfoldable pub count_of : String → String → List Count → ℕ
count_of from to [] = 0
count_of from to (c ∷ cs) = if is_edge from to c then c.count else count_of from to cs

unfoldable pub increment_transition : String → String → List Count → List Count
increment_transition from to [] = record { from = from; to = to; count = 1 } ∷ []
increment_transition from to (c ∷ cs) =
    if is_edge from to c
    then record c { count = suc c.count } ∷ cs
    else c ∷ increment_transition from to cs

unfoldable pub is_back_edge : String → List Count → Bool
is_back_edge target counts = any (λ c. str_eq c.to target && ltb 0 c.count) counts

unfoldable pub max_retries_of : ℕ → ℕ
max_retries_of n = if n == 0 then 3 else n

pub data Evaluation : Type 0 where
  no_label no_transition not_allowed target_unknown : Evaluation
  cycle_limit : (count : ℕ) → Evaluation
  taken : (target : String) → Evaluation

unfoldable pub take_edge : ℕ → (name target : String) → List Count → Evaluation × List Count
take_edge max_retries name target counts =
    let counts' = increment_transition name target counts in
    if is_back_edge target counts && leb (max_retries_of max_retries) (count_of name target counts')
    then (cycle_limit (count_of name target counts'), counts')
    else (taken target, counts')

unfoldable pub to_known :
    Option State → ℕ → (name target : String) → List Count → Evaluation × List Count
to_known none max_retries name target counts = (target_unknown, counts)
to_known (some s) max_retries name target counts = take_edge max_retries name target counts

unfoldable pub follow :
    Workflow
    → (name : String) → State
    → (label : String) → List String
    → Option String
    → List Count
    → Evaluation × List Count
follow wf name s label labels none counts = (no_transition, counts)
follow wf name s label labels (some target) counts =
    if transition_allowed_for_state name s label target labels
    then to_known (lookup target wf.states) wf.max_retries name target counts
    else (not_allowed, counts)

-- `evaluateTransitions` on an added label, up to the dispatch of the target's agents.
unfoldable pub evaluate_transitions :
    Workflow
    → (name : String) → State
    → (label : String) → List String
    → List Count
    → Evaluation × List Count
evaluate_transitions wf name s label labels counts =
    if str_eq label ""
    then (no_label, counts)
    else follow wf name s label labels (lookup label s.transitions) counts
