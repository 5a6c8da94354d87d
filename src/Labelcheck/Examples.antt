-- ===== src/Labelcheck/Examples.antt =====
-- A run's labels at concrete inputs.
use workbuddy.Prelude.{Option, [], ◌∷◌, pos}
use workbuddy.Labelcheck.{LabelState, Input, classify}
use workbuddy.Labelcheck.Verdicts.{after, before, FirstFailed, Verdict, classify-Verdict}

abbrev developing : LabelState
developing = record { name = "developing"; label = "status:developing" }

abbrev reviewing : LabelState
reviewing = record { name = "reviewing"; label = "status:reviewing" }

abbrev input : Input
input = record {
  pre = "status:developing" ∷ [];
  post = "status:reviewing" ∷ [];
  exit_code = pos 0;
  current = developing;
  allowed_transitions = reviewing ∷ [];
  known_states = developing ∷ reviewing ∷ [];
}

classify-Verdict_example :
    (o : Option LabelState) × FirstFailed (after input) o
    × Verdict input (before input) (after input) o (classify input)
classify-Verdict_example = classify-Verdict input
