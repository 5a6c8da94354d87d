-- ===== src/Machine/Cycles/Caps.antt =====
-- What the caps do to the counters (internal/statemachine/statemachine.go).
use workbuddy.Prelude.{
  ℕ, suc, ◌≤◌, ◌<◌, String, ◌≡◌, ◌≢◌, refl, ◌⊎◌, inl, inr, Bool, true, false, not, ◌&&◌, [], arith,
  str_eq, str_eq_iff, Bool-cases,
}
use workbuddy.Machine.Config.{Workflow}
use workbuddy.Machine.Cycles.{
  CycleState, Progress, CycleCapSpec, dev_review_cycle_cap_spec, synth_cycle_cap_spec, count_of,
  increment, mark_cap_hit, Ruling, enforce_cycle_cap, latest_transition_into_state, review_cap_spec,
  apply_dev_review_cycle_cap,
}

-- The two counters, by a Boolean: the one of the synthesis loop, and the one of dev and review.
abbrev pub kind : Bool → CycleState → ℕ
kind true c = c.synth_cycle_count
kind false c = c.dev_review_cycle_count

abbrev pub spec_of : Bool → Workflow → CycleCapSpec
spec_of true wf = synth_cycle_cap_spec wf
spec_of false wf = dev_review_cycle_cap_spec wf

-- The loop that a review came from.
abbrev pub from_synthesis : Progress → Bool
from_synthesis p = str_eq (latest_transition_into_state "reviewing" p.history) "synthesizing"

pub record Counts (b trip : Bool) (max : ℕ) (c : CycleState) (r : Ruling) : Type 0 where
  pub total : r.cycles.total_transitions ≡ c.total_transitions
  pub grows : kind b c ≤ kind b r.cycles
  pub paid :
      (trip ≡ false)
      ⊎ (r.blocked ≡ true)
      ⊎ ((kind b r.cycles ≡ suc (kind b c)) × (kind b r.cycles < max))

enforce-Counts :
    (now : ℕ) (b : Bool) (wf : Workflow) (c : CycleState)
    → Counts b true (spec_of b wf).max_cycles c (enforce_cycle_cap now (spec_of b wf) c)
unfolding enforce_cycle_cap increment count_of mark_cap_hit synth_cycle_cap_spec
    dev_review_cycle_cap_spec
enforce-Counts now true wf c = record {
  total = ground arith;
  grows = ground arith;
  paid = ground arith;
}
enforce-Counts now false wf c = record {
  total = ground arith;
  grows = ground arith;
  paid = ground arith;
}

enforce-keeps :
    (now : ℕ) (b : Bool) (wf : Workflow) (c : CycleState)
    → Counts b false (spec_of b wf).max_cycles c (enforce_cycle_cap now (spec_of (not b) wf) c)
unfolding enforce_cycle_cap increment count_of mark_cap_hit synth_cycle_cap_spec
    dev_review_cycle_cap_spec
enforce-keeps now true wf c = record { total = ground arith; grows = ground arith; paid = inl refl }
enforce-keeps now false wf c = record {
  total = ground arith;
  grows = ground arith;
  paid = inl refl;
}

abbrev pub same : Bool → Bool → Bool
same true b = b
same false b = not b

-- The entry is a round trip of that loop.
abbrev pub is_cycle : Bool → Progress → String → Bool
is_cycle b p entered =
    str_eq entered "developing" && str_eq p.current_state "reviewing" && same b (from_synthesis p)

review_cap_spec_lem :
    (wf : Workflow) (p : Progress) → review_cap_spec wf p ≡ spec_of (from_synthesis p) wf
unfolding review_cap_spec
review_cap_spec_lem wf p = elim (Bool-cases (from_synthesis p)) [
  | inl e ↦ rw e refl
  | inr e ↦ rw e refl
]

either-Counts :
    (now : ℕ) (b d : Bool) (wf : Workflow) (c : CycleState)
    → Counts b (same b d) (spec_of b wf).max_cycles c (enforce_cycle_cap now (spec_of d wf) c)
either-Counts now true true wf c = enforce-Counts now true wf c
either-Counts now true false wf c = enforce-keeps now true wf c
either-Counts now false true wf c = enforce-keeps now false wf c
either-Counts now false false wf c = enforce-Counts now false wf c

idle-Counts :
    (b : Bool) (max : ℕ) (c : CycleState)
    → Counts b false max c (record { blocked = false; cycles = c; notices = [] })
idle-Counts b max c = record { total = refl; grows = omega arith; paid = inl refl }

pub apply-Counts :
    (now : ℕ) (b : Bool) (wf : Workflow) (p : Progress) (entered : String)
    → p.current_state ≢ "blocked"
    → Counts b
        (is_cycle b p entered)
        (spec_of b wf).max_cycles
        p.cycles
        (apply_dev_review_cycle_cap now wf p entered)
unfolding apply_dev_review_cycle_cap
apply-Counts now b wf p entered h =
    let free : str_eq p.current_state "blocked" ≡ false =
      ground (arith, str_eq_iff p.current_state "blocked") in
    elim (Bool-cases (str_eq entered "developing")) [
      | inr elsewhere ↦ rw elsewhere (idle-Counts b _ p.cycles)
      | inl dev ↦ elim (Bool-cases (str_eq p.current_state "reviewing")) [
        | inr other ↦ rw (dev, free, other) (idle-Counts b _ p.cycles)
        | inl review ↦
            rw (dev, free, review, review_cap_spec_lem wf p)
              (either-Counts now b (from_synthesis p) wf p.cycles)
      ]
    ]
