-- ===== src/Machine/Transitions/Retries.antt =====
-- How often an edge of the workflow is taken (internal/statemachine/statemachine.go).
use workbuddy.Prelude.{
  ℕ, suc, ◌-◌, ◌≤◌, String, ◌≡◌, refl, ◌⊎◌, inl, inr, Bool, false, ◌&&◌, Option, none, some, List,
  [], ◌∷◌, arith, ltb, if◌then◌else◌, str_eq, str_eq_iff, any, lookup, string_eq, Bool-cases,
  if_ind,
}
use workbuddy.Machine.Config.{State, Workflow}
use workbuddy.Machine.Transitions.{
  Count, count_of, increment_transition, is_back_edge, max_retries_of, Evaluation, taken, take_edge,
  to_known, follow, transition_allowed_for_state, evaluate_transitions,
}

count-increment :
    (from to a b : String) (cs : List Count)
    → count_of a b (increment_transition from to cs)
      ≡ (if str_eq from a && str_eq to b then suc (count_of a b cs) else count_of a b cs)
unfolding count_of increment_transition
count-increment from to a b [] = refl
count-increment from to a b (c ∷ cs) = ground (
  arith,
  count-increment from to a b cs,
  str_eq_iff c.from from,
  str_eq_iff c.to to,
  str_eq_iff c.from a,
  str_eq_iff c.to b,
  str_eq_iff from a,
  str_eq_iff to b,
)

-- An edge that was counted leads to a state that was visited.
back_edge-counted :
    (from to : String) (cs : List Count) → is_back_edge to cs ≡ false → count_of from to cs ≡ 0
unfolding is_back_edge count_of any
back_edge-counted from to [] e = refl
back_edge-counted from to (c ∷ cs) e = ground (arith, back_edge-counted from to cs)

-- What may count a transition: an event that adds a label in a state, or the record of an entered state.
pub data Step : Type 0 where
  label_added : (name : String) → State → (label : String) → (labels : List String) → Step
  entered : (from to : String) → Step

unfoldable pub counts_after : Workflow → Step → List Count → List Count
counts_after wf (label_added name s label labels) counts =
    (evaluate_transitions wf name s label labels counts).1
counts_after wf (entered from to) counts = increment_transition from to counts

unfoldable pub reaches : String → String → String → Evaluation → Bool
reaches a b name (taken target) = str_eq name a && str_eq target b
reaches a b name _ = false

unfoldable pub takes_edge : Workflow → (a b : String) → Step → List Count → Bool
takes_edge wf a b (label_added name s label labels) counts =
    reaches a b name (evaluate_transitions wf name s label labels counts).0
takes_edge wf a b (entered from to) counts = false

-- How often a run takes the edge from `a` to `b` by an added label.
unfoldable pub takes : Workflow → (a b : String) → List Step → List Count → ℕ
takes wf a b [] counts = 0
takes wf a b (s ∷ ss) counts =
    let rest = takes wf a b ss (counts_after wf s counts) in
    if takes_edge wf a b s counts then suc rest else rest

-- One take is always granted.
unfoldable pub allowance : Workflow → ℕ
allowance wf =
    if ltb 2 (max_retries_of wf.max_retries) then max_retries_of wf.max_retries - 1 else 1

-- The count of the edge grows by every take, and stays within the allowance by it.
record Pays (wf : Workflow) (a b : String) (takes_it : Bool) (counts counts' : List Count)
    : Type 0 where
  grows : count_of a b counts ≤ count_of a b counts'
  paid :
      (takes_it ≡ false)
      ⊎ ((count_of a b counts' ≡ suc (count_of a b counts)) × (count_of a b counts' ≤ allowance wf))

module _ (wf : Workflow) (a b : String) (counts : List Count) where
  idle-Pays : Pays wf a b false counts counts
  idle-Pays = record { grows = omega arith; paid = inl refl }

  take_edge-Pays :
      (name target : String)
      → let out = take_edge wf.max_retries name target counts in
        Pays wf a b (reaches a b name out.0) counts out.1
  unfolding take_edge reaches allowance
  take_edge-Pays name target =
      let counted = count-increment name target a b counts in
      let own = count-increment name target name target counts in
      let first = back_edge-counted name target counts in
      let same_name = str_eq_iff name a in
      let same_target = str_eq_iff target b in
      record {
        grows = ground (arith, counted);
        paid = elim (Bool-cases (str_eq name a && str_eq target b)) [
          | inr other ↦ inl (ground (arith, other))
          | inl here ↦
              paid_here name target (same_name.0 (ground arith)) (same_target.0 (ground arith))
        ];
      }
    where
      paid_here :
          (name target : String)
          → name ≡ a
          → target ≡ b
          → let out = take_edge wf.max_retries name target counts in
            (reaches a b name out.0 ≡ false)
            ⊎ ((count_of a b out.1 ≡ suc (count_of a b counts))
                × (count_of a b out.1 ≤ allowance wf))
      paid_here name target e f =
          rw (e, f)
            (ground (
              arith,
              count-increment a b a b counts,
              back_edge-counted a b counts,
              (str_eq_iff a a).1 refl,
              (str_eq_iff b b).1 refl,
            ))

  to_known-Pays :
      (o : Option State) (name target : String)
      → let out = to_known o wf.max_retries name target counts in
        Pays wf a b (reaches a b name out.0) counts out.1
  unfolding to_known reaches
  to_known-Pays none name target = idle-Pays
  to_known-Pays (some s) name target = take_edge-Pays name target

  follow-Pays :
      (name : String) (s : State) (label : String) (labels : List String) (o : Option String)
      → let out = follow wf name s label labels o counts in
        Pays wf a b (reaches a b name out.0) counts out.1
  unfolding follow reaches
  follow-Pays name s label labels none = idle-Pays
  follow-Pays name s label labels (some target) =
      elim (Bool-cases (transition_allowed_for_state name s label target labels)) [
        | inl allowed ↦ rw allowed (to_known-Pays (lookup target wf.states) name target)
        | inr barred ↦ rw barred idle-Pays
      ]

  step-Pays :
      (s : Step) → Pays wf a b (takes_edge wf a b s counts) counts (counts_after wf s counts)
  unfolding takes_edge counts_after evaluate_transitions reaches
  step-Pays (label_added name s label labels) =
      if_ind (λ (o : Evaluation × List Count). Pays wf a b (reaches a b name o.0) counts o.1)
        (str_eq label "") idle-Pays (follow-Pays name s label labels (lookup label s.transitions))
  step-Pays (entered from to) = record {
    grows = ground (arith, count-increment from to a b counts);
    paid = inl refl;
  }

-- The retry cap: whatever labels are added in whatever states, and whatever entered states are recorded
-- in between, an edge of the workflow is taken by an added label at most `max_retries` - 1 times (once,
-- where `max_retries` is 1), less the times that it was counted before.
pub takes-bounded :
    (wf : Workflow) (a b : String) (ss : List Step) (counts : List Count)
    → takes wf a b ss counts ≤ allowance wf - count_of a b counts
unfolding takes
takes-bounded wf a b [] counts = omega arith
takes-bounded wf a b (s ∷ ss) counts =
    let t = step-Pays wf a b counts s in
    let rest = takes-bounded wf a b ss (counts_after wf s counts) in
    ground (arith, t.grows, t.paid, rest)
