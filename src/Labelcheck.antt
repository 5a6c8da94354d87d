-- ===== src/Labelcheck.antt =====
-- internal/labelcheck/labelcheck.go: what the labels of an issue before and after a run say of it.
mod Verdicts
mod Examples
use workbuddy.Prelude.{
  String, Bool, true, false, not, ◌&&◌, ◌||◌, Option, none, some, List, [], ◌∷◌, if◌then◌else◌,
  str_eq, contains, concat, ℤ, is_zero,
}

pub record LabelState : Type 0 where
  pub name : String
  pub label : String

abbrev pub no_state : LabelState
no_state = record { name = ""; label = "" }

pub record Input : Type 0 where
  pub pre : List String
  pub post : List String
  pub exit_code : ℤ
  pub current : LabelState
  pub allowed_transitions : List LabelState
  pub known_states : List LabelState

pub data Classification : Type 0 where
  ok no_transition_after_success no_transition_after_failure unexpected_transition failed :
      Classification

pub record Result : Type 0 where
  pub classification : Classification
  pub from : LabelState
  pub to : LabelState

unfoldable pub no_transition_classification : ℤ → Classification
no_transition_classification exit_code =
    if is_zero exit_code then no_transition_after_success else no_transition_after_failure

unfoldable pub match_states : List String → List LabelState → List LabelState
match_states labels [] = []
match_states labels (s ∷ known) =
    if not (str_eq s.label "") && contains labels s.label
    then s ∷ match_states labels known
    else match_states labels known

unfoldable pub contains_state : List LabelState → LabelState → Bool
contains_state [] want = false
contains_state (s ∷ states) want =
    (str_eq s.label want.label && str_eq s.name want.name) || contains_state states want

abbrev pub first_or_none : List LabelState → LabelState
first_or_none [] = no_state
first_or_none (s ∷ _) = s

-- The loop of `selectPrimaryState`, with what it comes to when no state differs.
unfoldable pub first_other : String → (otherwise : LabelState) → List LabelState → LabelState
first_other label otherwise [] = otherwise
first_other label otherwise (s ∷ states) =
    if not (str_eq label "") && not (str_eq s.label label)
    then s
    else first_other label otherwise states

unfoldable pub select_primary_state : List LabelState → LabelState → LabelState
select_primary_state states current = first_other current.label (first_or_none states) states

unfoldable pub state_named : List LabelState → String → Option LabelState
state_named [] name = none
state_named (s ∷ states) name = if str_eq s.name name then some s else state_named states name

unfoldable pub resolve_current : List String → LabelState → List LabelState → LabelState
resolve_current pre fallback known =
    let pre_state = select_primary_state (match_states pre known) fallback in
    if not (str_eq pre_state.label "") then pre_state else fallback

-- The switch of `Classify`, by the states that the labels after the run match.
unfoldable pub classify_unfailed : Input → LabelState → List LabelState → Result
classify_unfailed i current [] = record {
  classification =
      if str_eq current.label ""
      then no_transition_classification i.exit_code
      else unexpected_transition;
  from = current;
  to = no_state;
}
classify_unfailed i current (s ∷ []) =
    if not (str_eq current.label "") && str_eq s.label current.label
    then record {
      classification = no_transition_classification i.exit_code;
      from = current;
      to = s;
    }
    else if contains_state i.allowed_transitions s
    then record { classification = ok; from = current; to = s }
    else record {
      classification = unexpected_transition;
      from = current;
      to = select_primary_state (s ∷ []) current;
    }
classify_unfailed i current (s ∷ t ∷ states) = record {
  classification = unexpected_transition;
  from = current;
  to = select_primary_state (s ∷ t ∷ states) current;
}

unfoldable pub classify_by : Input → LabelState → List LabelState → Option LabelState → Result
classify_by i current post (some f) = record { classification = failed; from = current; to = f }
classify_by i current post none = classify_unfailed i current post

unfoldable pub classify : Input → Result
classify i =
    let post = match_states i.post i.known_states in
    classify_by i (resolve_current i.pre i.current i.known_states) post (state_named post "failed")

unfoldable pub needs_human_recommendation : Result → Bool
needs_human_recommendation r = elim r.classification [
  | no_transition_after_success ↦ true
  | _ ↦ false
]

unfoldable pub display_state : LabelState → String
display_state s =
    if not (str_eq s.name "") then s.name else if not (str_eq s.label "") then s.label else "none"

unfoldable pub summary : Result → String
summary r =
    let shown =
      concat ("Label transition: " ∷ display_state r.from ∷ " -> " ∷ display_state r.to ∷ []) in
    elim r.classification [
      | ok ↦ concat (shown ∷ " (OK)" ∷ [])
      | no_transition_after_success ↦ "Label transition: none - needs human review"
      | no_transition_after_failure ↦ "Label transition: none - retry path"
      | failed ↦ concat (shown ∷ " (failed)" ∷ [])
      | unexpected_transition ↦ concat (shown ∷ " (unexpected)" ∷ [])
    ]
