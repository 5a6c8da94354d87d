-- ===== src/Machine/Cycles/Examples.antt =====
-- The cycle caps at concrete inputs.
use workbuddy.Prelude.{suc, ◌-◌, ◌≤◌, ◌<◌, String, ◌≡◌, refl, ◌⊎◌, true, false, some, List, [], ◌∷◌}
use workbuddy.Machine.Config.{Workflow}
use workbuddy.Machine.Cycles.{no_cycles, Progress, enter_state, max_total_transitions}
use workbuddy.Machine.Cycles.Caps.{spec_of}
use workbuddy.Machine.Cycles.Bounds.{
  Step, admissions, round_trips, admissions-bounded, round_trips-bounded, enter_state-unblocks,
}

abbrev wf : Workflow
wf = record {
  name = "default";
  issue_label = "workbuddy";
  max_retries = 3;
  max_review_cycles = 3;
  states = [];
}

abbrev at : String → Progress
at state = record {
  cycles = record no_cycles { total_transitions = 4; dev_review_cycle_count = 1 };
  current_state = state;
  history = [];
}

abbrev step : String → Step
step state = record { now = 100; staffed = true; resynced = false; entered = state }

abbrev loop : List Step
loop = step "developing" ∷ step "reviewing" ∷ step "developing" ∷ []

admissions-bounded_example : admissions wf loop (at "reviewing") ≤ max_total_transitions - 4
admissions-bounded_example =
    admissions-bounded wf loop (at "reviewing") (λ e. cc) ((λ e. cc), ((λ e. cc), ((λ e. cc), tt)))

round_trips-bounded_example :
    round_trips false wf loop (at "reviewing") ≤ (spec_of false wf).max_cycles - 1 - 1
round_trips-bounded_example =
    round_trips-bounded false wf loop (at "reviewing") (λ e. cc)
      ((λ e. cc), ((λ e. cc), ((λ e. cc), tt)))

enter_state-unblocks_example :
    let e = enter_state 100 wf false "developing" (at "blocked") in
    ((4 < max_total_transitions)
      × (e.admitted ≡ true)
      × (e.progress.cycles ≡ record no_cycles { first_dispatch_at = some 100 })
      × (e.progress.current_state ≡ "developing"))
    ⊎ ((max_total_transitions ≤ 4)
        × (e.admitted ≡ false)
        × (e.progress ≡ record (at "blocked") {
          cycles = record (at "blocked").cycles { total_transitions = suc 4 };
        }))
enter_state-unblocks_example = enter_state-unblocks 100 wf (at "blocked") refl
