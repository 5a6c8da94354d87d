-- ===== src/Control/Rounds.antt =====
-- The end of the control loop (internal/control/loop.go).
use workbuddy.Prelude.{
  ℕ, zero, suc, ◌+◌, ◌≤◌, ◌<◌, String, ◌≡◌, refl, ◌≢◌, ◌⊎◌, inl, inr, Option, none, some, List, [],
  ◌∷◌, ◌++◌, arith,
}
use workbuddy.Control.{
  Observation, Delta, feedback, Action, resume, block, complete, decide_round, max_rounds_of,
  Outcome, ok, err, LoopConfig, LoopResult, Turn, return, again, settle, decided, observed, ran,
  turn, run_rounds, run_loop,
}
use workbuddy.Control.Policy.{Satisfies, feedback-Satisfies, decide_round_lem, decide_round-resume}

-- What a result of the loop states: it blocks, or it completes on an observation, made in the last
-- round, that satisfies the objective.
pub record IsFinal (cfg : LoopConfig) (r : LoopResult) : Type 0 where
  pub within : r.rounds ≤ max_rounds_of cfg.max_rounds
  pub ends :
      (r.action ≡ block)
      ⊎ ((r.action ≡ complete)
          × (earlier : List Delta) × (obs : Observation) × (r.deltas
              ≡ earlier ++ feedback cfg.objective obs ∷ [])
          × Satisfies cfg.objective obs)

Action-cases : (a : Action) → a ≢ resume → (a ≡ block) ⊎ (a ≡ complete)
Action-cases resume h = absurd (h refl)
Action-cases block h = inl refl
Action-cases complete h = inr refl

settle_ind {ℓ} :
    {A : Type ℓ} (P : A → Type 0) (a : Action) (x y : A)
    → (a ≡ resume → P x)
    → (a ≢ resume → P y)
    → P (settle a x y)
unfolding settle
settle_ind P resume x y p q = p refl
settle_ind P block x y p q = q (λ e. cc)
settle_ind P complete x y p q = q (λ e. cc)

module _ {W : Type 0} (run_agent : W → String → String → Outcome String × W)
    (observe : W → String → ℕ → String → Outcome Observation × W) where
  abbrev Progresses : LoopConfig → ℕ → Turn run_agent observe → Type 0
  Progresses cfg round (return r w) = IsFinal cfg r
  Progresses cfg round (again prev session deltas w) = suc round < max_rounds_of cfg.max_rounds

  decided-Progresses :
      (cfg : LoopConfig) (round : ℕ) (prev : Option Delta) (session : String) (deltas : List Delta)
      (obs : Observation) (w : W)
      → suc round ≤ max_rounds_of cfg.max_rounds
      → Progresses cfg round (decided run_agent observe cfg round prev session deltas obs w)
  unfolding decided
  decided-Progresses cfg round prev session deltas obs w h =
      let delta = feedback cfg.objective obs in
      settle_ind (Progresses cfg round) _ _ _
        (λ e. decide_round-resume cfg.max_rounds delta (suc round) prev e)
        (λ e. record {
          within = h;
          ends = elim (Action-cases (decide_round cfg.max_rounds delta (suc round) prev).action e) [
            | inl b ↦ inl b
            | inr c ↦ inr (
              c,
              deltas,
              obs,
              refl,
              (feedback-Satisfies cfg.objective obs).0
                  ((decide_round_lem cfg.max_rounds delta (suc round) prev).0.0 c),
            )
          ];
        })

  observed-Progresses :
      (cfg : LoopConfig) (round : ℕ) (prev : Option Delta) (session : String) (deltas : List Delta)
      (o : Outcome Observation × W)
      → suc round ≤ max_rounds_of cfg.max_rounds
      → Progresses cfg round (observed run_agent observe cfg round prev session deltas o)
  unfolding observed
  observed-Progresses cfg round prev session deltas (ok obs, w) h =
      decided-Progresses cfg round prev session deltas obs w h
  observed-Progresses cfg round prev session deltas (err e, w) h = record {
    within = h;
    ends = inl refl;
  }

  ran-Progresses :
      (cfg : LoopConfig) (round : ℕ) (prev : Option Delta) (deltas : List Delta)
      (o : Outcome String × W)
      → suc round ≤ max_rounds_of cfg.max_rounds
      → Progresses cfg round (ran run_agent observe cfg round prev deltas o)
  unfolding ran
  ran-Progresses cfg round prev deltas (ok session, w) h =
      observed-Progresses cfg round prev session deltas _ h
  ran-Progresses cfg round prev deltas (err e, w) h = record { within = h; ends = inl refl }

  abbrev Ends : LoopConfig → Option (LoopResult × W) → Type 0
  Ends cfg o = (r : LoopResult) × (w : W) × (o ≡ some (r, w)) × IsFinal cfg r

  run_rounds-Ends :
      (fuel : ℕ) (cfg : LoopConfig) (round : ℕ) (prev : Option Delta) (session : String)
      (deltas : List Delta) (w : W)
      → suc round ≤ max_rounds_of cfg.max_rounds
      → max_rounds_of cfg.max_rounds ≤ round + fuel
      → Ends cfg (run_rounds run_agent observe fuel cfg round prev session deltas w)
  unfolding run_rounds turn
  run_rounds-Ends zero cfg round prev session deltas w h k = absurd (omega arith)
  run_rounds-Ends (suc fuel) cfg round prev session deltas w h k =
      go (ran run_agent observe cfg round prev deltas _) (ran-Progresses cfg round prev deltas _ h)
        (λ prev' session' deltas' w'.
          run_rounds-Ends fuel cfg (suc round) (some prev') session' deltas' w')
    where
      go :
          (t : Turn run_agent observe)
          → Progresses cfg round t
          → ((prev' : Delta) (session' : String) (deltas' : List Delta) (w' : W)
              → suc (suc round) ≤ max_rounds_of cfg.max_rounds
              → max_rounds_of cfg.max_rounds ≤ suc round + fuel
              → Ends cfg (
                  run_rounds run_agent observe fuel cfg
                    (suc round)
                    (some prev')
                    session'
                    deltas'
                    w'))
          → Ends cfg (elim t [
            | return r w' ↦ some (r, w')
            | again prev' session' deltas' w' ↦
                run_rounds run_agent observe fuel cfg (suc round) (some prev') session' deltas' w'
          ])
      go (return r w') p rest = (r, w', refl, p)
      go (again prev' session' deltas' w') p rest = rest prev' session' deltas' w' p (omega arith)

  max_rounds_of-pos : (n : ℕ) → 1 ≤ max_rounds_of n
  unfolding max_rounds_of
  max_rounds_of-pos n = ground arith

  -- The control loop returns within its rounds, for every agent and every world: it blocks or
  -- completes, never resumes, and where it completes, the observation of its last round satisfies
  -- the objective.
  pub run_loop-IsFinal :
      (cfg : LoopConfig) (w : W)
      → (r : LoopResult) × (w' : W) × (run_loop run_agent observe cfg w ≡ some (r, w'))
        × IsFinal cfg r
  unfolding run_loop
  run_loop-IsFinal cfg w =
      run_rounds-Ends (max_rounds_of cfg.max_rounds) cfg 0 none "" [] w
        (max_rounds_of-pos cfg.max_rounds) (omega arith)
