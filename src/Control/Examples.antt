-- ===== src/Control/Examples.antt =====
-- The control loop at concrete inputs.
use workbuddy.Prelude.{ℕ, suc, String, ◌≡◌, ◌↔◌, true, false, some, [], ◌∷◌, ◌==◌, if◌then◌else◌}
use workbuddy.Control.{
  dev_objective, Observation, Delta, feedback, Outcome, ok, LoopConfig, LoopResult, run_loop,
}
use workbuddy.Control.Policy.{Satisfies, feedback-Satisfies}
use workbuddy.Control.Rounds.{IsFinal, run_loop-IsFinal}

abbrev seen : Observation
seen = record {
  branch_pushed = true;
  pr_open = true;
  pr_number = 12;
  label_current = "status:reviewing";
  issue_commented = false;
}

abbrev delta : Delta
delta = record { missing = "no comment posted on issue" ∷ []; met = []; all_met = false }

abbrev cfg : LoopConfig
cfg = record {
  repo = "o/r";
  issue_num = 7;
  branch = "workbuddy/issue-7";
  objective = dev_objective;
  max_rounds = 3;
}

-- The world counts the runs; the second one posts the comment.
abbrev agent : ℕ → String → String → Outcome String × ℕ
agent w prompt session = (ok "session", suc w)

abbrev look : ℕ → String → ℕ → String → Outcome Observation × ℕ
look w repo issue branch =
    (ok (record seen { issue_commented = if w == 2 then true else false }), w)

feedback-Satisfies_example :
    ((feedback dev_objective seen).all_met ≡ true) ↔ Satisfies dev_objective seen
feedback-Satisfies_example = feedback-Satisfies dev_objective seen

run_loop-IsFinal_example :
    (r : LoopResult) × (w' : ℕ) × (run_loop agent look cfg 0 ≡ some (r, w')) × IsFinal cfg r
run_loop-IsFinal_example = run_loop-IsFinal agent look cfg 0
