-- ===== src/Machine/Cycles/Bounds.antt =====
-- How often an issue enters a state: the caps over whole runs (internal/statemachine/statemachine.go).
use workbuddy.Prelude.{
  ℕ, suc, ◌-◌, ◌≤◌, ◌<◌, String, ◌≡◌, ◌≢◌, refl, ap, ◌∙◌, ◌⊎◌, inl, inr, Bool, true, false, not,
  ◌&&◌, some, List, [], ◌∷◌, arith, ltb, if◌then◌else◌, str_eq, Bool-cases, All,
}
use workbuddy.Machine.Config.{Workflow}
use workbuddy.Machine.Cycles.{
  CycleState, no_cycles, Progress, Ruling, apply_dev_review_cycle_cap, record_state_entry,
  touch_first_dispatch, Entry, admit, count_total, enter_state, enter_stateless,
  max_total_transitions,
}
use workbuddy.Machine.Cycles.Caps.{kind, spec_of, is_cycle, apply-Counts}

-- An event that enters a state, at a time: `staffed` says that the state has agents, `resynced` that the
-- event is a periodic snapshot.
pub record Step : Type 0 where
  pub now : ℕ
  pub staffed : Bool
  pub resynced : Bool
  pub entered : String

unfoldable pub run_step : Workflow → Step → Progress → Entry
run_step wf s p =
    if s.staffed
    then enter_state s.now wf s.resynced s.entered p
    else record { admitted = false; progress = enter_stateless s.entered p; notices = [] }

-- The dispatches that the run admits, resyncs not counted.
unfoldable pub admissions : Workflow → List Step → Progress → ℕ
admissions wf [] p = 0
admissions wf (s ∷ ss) p =
    let e = run_step wf s p in
    let rest = admissions wf ss e.progress in
    if e.admitted && not s.resynced then suc rest else rest

-- Those of them that are round trips of one of the two loops.
unfoldable pub round_trips : Bool → Workflow → List Step → Progress → ℕ
round_trips b wf [] p = 0
round_trips b wf (s ∷ ss) p =
    let e = run_step wf s p in
    let rest = round_trips b wf ss e.progress in
    if e.admitted && not s.resynced && is_cycle b p s.entered then suc rest else rest

-- What one step does to the counters, as long as nobody blocks the issue.
record Steps (b : Bool) (wf : Workflow) (resynced : Bool) (entered : String) (p : Progress)
    (e : Entry) : Type 0 where
  free : e.progress.current_state ≢ "blocked"
  total : p.cycles.total_transitions ≤ e.progress.cycles.total_transitions
  total_paid :
      ((e.admitted && not resynced) ≡ false)
      ⊎ ((e.progress.cycles.total_transitions ≡ suc p.cycles.total_transitions)
          × (e.progress.cycles.total_transitions ≤ max_total_transitions))
  grows : kind b p.cycles ≤ kind b e.progress.cycles
  paid :
      ((e.admitted && not resynced && is_cycle b p entered) ≡ false)
      ⊎ ((kind b e.progress.cycles ≡ suc (kind b p.cycles))
          × (kind b e.progress.cycles < (spec_of b wf).max_cycles))

record_state_entry-free :
    (entered : String) (p : Progress)
    → entered ≢ "blocked"
    → p.current_state ≢ "blocked"
    → (record_state_entry entered p).current_state ≢ "blocked"
unfolding record_state_entry
record_state_entry-free entered p h k = elim (Bool-cases (str_eq p.current_state "")) [
  | inl e ↦ rw e k
  | inr e ↦ elim (Bool-cases (str_eq p.current_state entered)) [
    | inl f ↦ rw (e, f) k
    | inr f ↦ rw (e, f) h
  ]
]

record_state_entry-cycles :
    (entered : String) (p : Progress) → (record_state_entry entered p).cycles ≡ p.cycles
unfolding record_state_entry
record_state_entry-cycles entered p = ground arith

record Admits (b : Bool) (r : Ruling) (e : Entry) : Type 0 where
  decides : e.admitted ≡ not r.blocked
  same_total : e.progress.cycles.total_transitions ≡ r.cycles.total_transitions
  same_kind : kind b e.progress.cycles ≡ kind b r.cycles
  still_free : e.progress.current_state ≢ "blocked"

touched_kind :
    (b : Bool) (now : ℕ) (p : Progress)
    → kind b (touch_first_dispatch now p).cycles ≡ kind b p.cycles
unfolding touch_first_dispatch
touched_kind true now p = refl
touched_kind false now p = refl

admit-Admits :
    (b : Bool) (now : ℕ) (entered : String) (p : Progress) (r : Ruling)
    → entered ≢ "blocked"
    → p.current_state ≢ "blocked"
    → Admits b r (admit now entered p r)
unfolding admit
admit-Admits b now entered p r h k =
    let p' : Progress = record p { cycles = r.cycles } in
    elim (Bool-cases r.blocked) [
      | inl stop ↦
          rw stop (record { decides = refl; same_total = refl; same_kind = refl; still_free = k })
      | inr go ↦ rw go (record {
        decides = refl;
        same_total =
            unfold touch_first_dispatch in
            ap (λ c. c.total_transitions) (record_state_entry-cycles entered p');
        same_kind =
            touched_kind b now (record_state_entry entered p')
            ∙ ap (kind b) (record_state_entry-cycles entered p');
        still_free = unfold touch_first_dispatch in record_state_entry-free entered p' h k;
      })
    ]

counted_kind : (b : Bool) (p : Progress) → kind b (count_total p).cycles ≡ kind b p.cycles
unfolding count_total
counted_kind true p = refl
counted_kind false p = refl

natural-Steps :
    (b : Bool) (wf : Workflow) (s : Step) (p : Progress)
    → s.entered ≢ "blocked"
    → p.current_state ≢ "blocked"
    → Steps b wf false s.entered p (enter_state s.now wf false s.entered p)
unfolding enter_state
natural-Steps b wf s p h k =
    let p' = count_total p in
    let total : p'.cycles.total_transitions ≡ suc p.cycles.total_transitions =
      unfold count_total in refl in
    let free : p'.current_state ≢ "blocked" = unfold count_total in k in
    let cycle : is_cycle b p' s.entered ≡ is_cycle b p s.entered = unfold count_total in refl in
    let counted = counted_kind b p in
    let r = apply_dev_review_cycle_cap s.now wf p' s.entered in
    let c = apply-Counts s.now b wf p' s.entered free in
    let a = admit-Admits b s.now s.entered p' r h free in
    elim (Bool-cases (ltb max_total_transitions p'.cycles.total_transitions)) [
      | inl over ↦ rw over (record {
        free = free;
        total = omega (arith, total);
        total_paid = inl refl;
        grows = omega (arith, counted);
        paid = inl refl;
      })
      | inr fine ↦ rw fine (record {
        free = a.still_free;
        total = omega (arith, total, c.total, a.same_total);
        total_paid = inr (
          omega (arith, total, c.total, a.same_total),
          ground (arith, c.total, a.same_total, fine),
        );
        grows = omega (arith, counted, c.grows, a.same_kind);
        paid = ground (arith, cycle, c.paid, a.decides, a.same_kind, counted);
      })
    ]

idle : Progress → Ruling
idle p = record { blocked = false; cycles = p.cycles; notices = [] }

resync-Steps :
    (b : Bool) (wf : Workflow) (s : Step) (p : Progress)
    → s.entered ≢ "blocked"
    → p.current_state ≢ "blocked"
    → Steps b wf true s.entered p (enter_state s.now wf true s.entered p)
unfolding enter_state idle
resync-Steps b wf s p h k =
    let a = admit-Admits b s.now s.entered p (idle p) h k in
    record {
      free = a.still_free;
      total = omega (arith, a.same_total);
      total_paid = inl (ground arith);
      grows = omega (arith, a.same_kind);
      paid = inl (ground arith);
    }

run_step-Steps :
    (b : Bool) (wf : Workflow) (s : Step) (p : Progress)
    → s.entered ≢ "blocked"
    → p.current_state ≢ "blocked"
    → Steps b wf s.resynced s.entered p (run_step wf s p)
unfolding run_step enter_stateless
run_step-Steps b wf s p h k = elim (Bool-cases s.staffed) [
  | inr bare ↦
      let same_cycles = record_state_entry-cycles s.entered p in
      rw bare (record {
        free = record_state_entry-free s.entered p h k;
        total = omega (arith, ap (λ (c : CycleState). c.total_transitions) same_cycles);
        total_paid = inl refl;
        grows = omega (arith, ap (kind b) same_cycles);
        paid = inl refl;
      })
  | inl staffed ↦ elim (Bool-cases s.resynced) [
    | inl again ↦ rw (staffed, again) (resync-Steps b wf s p h k)
    | inr first ↦ rw (staffed, first) (natural-Steps b wf s p h k)
  ]
]

-- Nobody puts the issue to `blocked`.
abbrev pub Unblocked : Step → Type 0
Unblocked s = s.entered ≢ "blocked"

-- The total cap: as long as nobody blocks the issue, no sequence of entries into states, of whatever states and
-- snapshots, has more entries into states with agents that are admitted than are left of 15, those of resyncs not
-- counted. (What a transition or a completion dispatches is no entry and is not counted by the cap.)
pub admissions-bounded :
    (wf : Workflow) (ss : List Step) (p : Progress)
    → p.current_state ≢ "blocked"
    → All Unblocked ss
    → admissions wf ss p ≤ max_total_transitions - p.cycles.total_transitions
unfolding admissions
admissions-bounded wf [] p k h = omega arith
admissions-bounded wf (s ∷ ss) p k h =
    let e = run_step wf s p in
    let t = run_step-Steps true wf s p h.0 k in
    let rest = admissions-bounded wf ss e.progress t.free h.1 in
    ground (arith, t.total, t.total_paid, rest)

-- The two loop caps, each over its own counter: as long as nobody blocks the issue, no sequence of entries into
-- states has more admitted entries, resyncs apart, that are round trips of a loop than are left below that loop's
-- cap. (What a transition or a completion dispatches is no entry and is not counted by the cap.)
pub round_trips-bounded :
    (b : Bool) (wf : Workflow) (ss : List Step) (p : Progress)
    → p.current_state ≢ "blocked"
    → All Unblocked ss
    → round_trips b wf ss p ≤ (spec_of b wf).max_cycles - 1 - kind b p.cycles
unfolding round_trips
round_trips-bounded b wf [] p k h = omega arith
round_trips-bounded b wf (s ∷ ss) p k h =
    let e = run_step wf s p in
    let t = run_step-Steps b wf s p h.0 k in
    let rest = round_trips-bounded b wf ss e.progress t.free h.1 in
    ground (arith, t.grows, t.paid, rest)

-- A snapshot of a state with agents is admitted, and leaves the three counters as they are.
pub resync-counts :
    (now : ℕ) (wf : Workflow) (entered : String) (p : Progress)
    → let e = enter_state now wf true entered p in
      (e.admitted ≡ true)
      × (e.progress.cycles.total_transitions ≡ p.cycles.total_transitions)
      × (e.progress.cycles.dev_review_cycle_count ≡ p.cycles.dev_review_cycle_count)
      × (e.progress.cycles.synth_cycle_count ≡ p.cycles.synth_cycle_count)
unfolding enter_state admit touch_first_dispatch
resync-counts now wf entered p =
    let same_cycles = record_state_entry-cycles entered p in
    (
      refl,
      ap (λ (c : CycleState). c.total_transitions) same_cycles,
      ap (λ (c : CycleState). c.dev_review_cycle_count) same_cycles,
      ap (λ (c : CycleState). c.synth_cycle_count) same_cycles,
    )

-- The way back from `blocked` to `developing`: below the total cap the entry is admitted with all counters
-- cleared; at the cap it is refused, and nothing but the total count changes.
pub enter_state-unblocks :
    (now : ℕ) (wf : Workflow) (p : Progress)
    → p.current_state ≡ "blocked"
    → let e = enter_state now wf false "developing" p in
      ((p.cycles.total_transitions < max_total_transitions)
        × (e.admitted ≡ true)
        × (e.progress.cycles ≡ record no_cycles { first_dispatch_at = some now })
        × (e.progress.current_state ≡ "developing"))
      ⊎ ((max_total_transitions ≤ p.cycles.total_transitions)
          × (e.admitted ≡ false)
          × (e.progress ≡ record p {
            cycles = record p.cycles { total_transitions = suc p.cycles.total_transitions };
          }))
unfolding enter_state apply_dev_review_cycle_cap admit record_state_entry touch_first_dispatch
    count_total str_eq
enter_state-unblocks now wf p k =
    elim (Bool-cases (ltb max_total_transitions (suc p.cycles.total_transitions))) [
      | inl over ↦ rw over (inr (ground arith, refl, refl))
      | inr fine ↦ rw fine (rw k (inl (ground arith, refl, refl, refl)))
    ]
