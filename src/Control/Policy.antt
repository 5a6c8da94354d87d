-- ===== src/Control/Policy.antt =====
-- What `Feedback` and `Decide` answer (internal/control/feedback.go, controller.go).
use workbuddy.Prelude.{
  ℕ, ◌≤◌, ◌<◌, String, ◌≡◌, refl, ◌↔◌, ◌≢◌, ◌⊎◌, Bool, true, false, not, ◌&&◌, Option, none, some,
  List, [], ◌∷◌, ◌++◌, arith, str_eq, str_eq_iff,
}
use workbuddy.Control.{
  Objective, Observation, Delta, check, check_label_target, check_label_moved, no_delta,
  is_empty_list, feedback, resume, block, complete, decide_round, max_rounds_of, same_unmet,
  is_stuck,
}

-- What an objective asks of the observed world, field by field.
pub record Satisfies (obj : Objective) (obs : Observation) : Type 0 where
  pub branch : obj.branch_pushed ≡ true → obs.branch_pushed ≡ true
  pub pr : obj.pr_open ≡ true → obs.pr_open ≡ true
  pub target : obj.label_target ≢ "" → obs.label_current ≡ obj.label_target
  pub moved :
      obj.label_not_equal ≢ ""
      → (obs.label_current ≢ obj.label_not_equal) × (obs.label_current ≢ "")
  pub comment : obj.issue_commented ≡ true → obs.issue_commented ≡ true

snoc≢nil : (xs : List String) (x : String) → xs ++ x ∷ [] ≢ []
snoc≢nil [] x = λ e. cc
snoc≢nil (y ∷ ys) x = λ e. cc

check_lem :
    (wanted holds : Bool) (a b : String) (d : Delta)
    → ((check wanted holds a b d).missing ≡ [])
      ↔ ((d.missing ≡ []) × (wanted ≡ true → holds ≡ true))
unfolding check
check_lem wanted holds a b d = ground (arith, snoc≢nil d.missing b)

-- A block adds its condition to what the earlier blocks ask.
check_iff :
    {P Q : Type 0} (wanted holds : Bool) (a b : String) (d : Delta)
    → (d.missing ≡ []) ↔ P
    → (wanted ≡ true → holds ≡ true) ↔ Q
    → ((check wanted holds a b d).missing ≡ []) ↔ (P × Q)
check_iff wanted holds a b d p q =
    let (to, from) = check_lem wanted holds a b d in
    (λ e. let (e1, e2) = to e in (p.0 e1, q.0 e2), λ (x, y). from (p.1 x, q.1 y))

wants_iff : (s t u : String) → (not (str_eq s "") ≡ true → str_eq t u ≡ true) ↔ (s ≢ "" → t ≡ u)
wants_iff s t u = ground (arith, str_eq_iff s "", str_eq_iff t u)

moves_iff :
    (s t : String)
    → (not (str_eq s "") ≡ true → (not (str_eq t s) && not (str_eq t "")) ≡ true)
      ↔ (s ≢ "" → (t ≢ s) × (t ≢ ""))
moves_iff s t = ground (arith, str_eq_iff s "", str_eq_iff t s, str_eq_iff t "")

is_empty_list_iff : (xs : List String) → (is_empty_list xs ≡ true) ↔ (xs ≡ [])
is_empty_list_iff [] = ground arith
is_empty_list_iff (x ∷ xs) = ground arith

-- `Feedback` reports all conditions met exactly when the observation satisfies the objective.
pub feedback-Satisfies :
    (obj : Objective) (obs : Observation) → ((feedback obj obs).all_met ≡ true) ↔ Satisfies obj obs
unfolding feedback check_label_target check_label_moved
feedback-Satisfies obj obs =
    let blocks =
      check_iff obj.issue_commented obs.issue_commented _ _ _
        (check_iff _ _ _ _ _
          (check_iff _ _ _ _ _
            (check_iff obj.pr_open obs.pr_open _ _ _
              (check_iff obj.branch_pushed obs.branch_pushed _ _ no_delta (λ e. e, λ e. e)
                (λ f. f, λ f. f))
              (λ f. f, λ f. f))
            (wants_iff obj.label_target obs.label_current obj.label_target))
          (moves_iff obj.label_not_equal obs.label_current))
        (λ f. f, λ f. f) in
    (
      λ e.
          let (((((_, b), p), t), m), c) = blocks.0 ((is_empty_list_iff _).0 e) in
          record { branch = b; pr = p; target = t; moved = m; comment = c },
      λ s.
          (is_empty_list_iff _).1
            (blocks.1 (((((refl, s.branch), s.pr), s.target), s.moved), s.comment)),
    )

-- The previous delta is there, and has the same unmet conditions.
abbrev pub Repeats : Delta → Option Delta → Type 0
Repeats delta none = ⊥
Repeats delta (some prev) = same_unmet delta prev ≡ true

is_stuck_iff :
    (delta : Delta) (prev : Option Delta) → (is_stuck delta prev ≡ true) ↔ Repeats delta prev
unfolding is_stuck
is_stuck_iff delta none = ground arith
is_stuck_iff delta (some prev) = (λ e. e, λ e. e)

-- `Decide` completes exactly when all conditions are met, and blocks exactly when some are unmet and
-- either no round is left or, from the third round on, the unmet ones repeat those of the round
-- before; otherwise it resumes. The decision carries the round.
pub decide_round_lem :
    (max_rounds : ℕ) (delta : Delta) (round : ℕ) (prev : Option Delta)
    → let d = decide_round max_rounds delta round prev in
      ((d.action ≡ complete) ↔ (delta.all_met ≡ true))
      × ((d.action ≡ block) ↔ (
          (delta.all_met ≡ false)
          × ((max_rounds_of max_rounds ≤ round) ⊎ (Repeats delta prev × (3 ≤ round)))))
      × (d.round ≡ round)
unfolding decide_round max_rounds_of
decide_round_lem max_rounds delta round prev =
    (ground arith, ground (arith, is_stuck_iff delta prev), ground arith)

pub decide_round-resume :
    (max_rounds : ℕ) (delta : Delta) (round : ℕ) (prev : Option Delta)
    → (decide_round max_rounds delta round prev).action ≡ resume
    → (round < max_rounds_of max_rounds)
unfolding decide_round
decide_round-resume max_rounds delta round prev e = ground arith
