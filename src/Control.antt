-- ===== src/Control.antt =====
-- internal/control: objective.go, observation.go, feedback.go, controller.go and loop.go.
mod Policy
mod Rounds
mod Examples
use workbuddy.Prelude.{
  ℕ, zero, suc, ◌+◌, String, ◌≡◌, refl, Bool, true, false, not, ◌&&◌, Option, none, some, List, [],
  ◌∷◌, ◌++◌, map, ltb, leb, ◌==◌, if◌then◌else◌, str_eq, length, concat, join_strings, itoa, quote,
  sort_strings,
}

pub record Objective : Type 0 where
  pub branch_pushed : Bool
  pub pr_open : Bool
  pub label_target : String
  pub label_not_equal : String
  pub issue_commented : Bool

pub dev_objective : Objective
dev_objective = record {
  branch_pushed = true;
  pr_open = true;
  label_target = "status:reviewing";
  label_not_equal = "";
  issue_commented = true;
}

pub review_objective : Objective
review_objective = record {
  branch_pushed = false;
  pr_open = false;
  label_target = "";
  label_not_equal = "status:reviewing";
  issue_commented = true;
}

pub merge_objective : Objective
merge_objective = record {
  branch_pushed = false;
  pr_open = false;
  label_target = "status:merged";
  label_not_equal = "";
  issue_commented = false;
}

pub record Observation : Type 0 where
  pub branch_pushed : Bool
  pub pr_open : Bool
  pub pr_number : ℕ
  pub label_current : String
  pub issue_commented : Bool

pub record Delta : Type 0 where
  pub missing : List String
  pub met : List String
  pub all_met : Bool

-- One block of `Feedback`: when the objective wants the condition, it is appended to the met or to
-- the missing ones.
check : (wanted holds : Bool) (met_text missing_text : String) → Delta → Delta
check wanted holds met_text missing_text d =
    if wanted
    then (if holds
        then record d { met = d.met ++ met_text ∷ [] }
        else record d { missing = d.missing ++ missing_text ∷ [] })
    else d

abbrev is_empty_list : List String → Bool
is_empty_list [] = true
is_empty_list (_ ∷ _) = false

-- The five blocks of `Feedback`, and the last line that sets `AllMet`.
abbrev no_delta : Delta
no_delta = record { missing = []; met = []; all_met = false }

check_label_target : Objective → Observation → Delta → Delta
check_label_target obj obs =
    check (not (str_eq obj.label_target "")) (str_eq obs.label_current obj.label_target)
      (concat ("label is " ∷ obs.label_current ∷ []))
      (concat ("label is " ∷ quote obs.label_current ∷ ", want " ∷ quote obj.label_target ∷ []))

check_label_moved : Objective → Observation → Delta → Delta
check_label_moved obj obs =
    check (not (str_eq obj.label_not_equal ""))
      (not (str_eq obs.label_current obj.label_not_equal) && not (str_eq obs.label_current ""))
      (concat ("label moved from " ∷ obj.label_not_equal ∷ " to " ∷ obs.label_current ∷ []))
      (concat ("label is still " ∷ quote obs.label_current ∷ ", want any other status" ∷ []))

pub feedback : Objective → Observation → Delta
feedback obj obs =
    let d1 =
      check obj.branch_pushed obs.branch_pushed "branch pushed" "branch not pushed" no_delta in
    let d2 =
      check obj.pr_open obs.pr_open (concat ("PR open (#" ∷ itoa obs.pr_number ∷ ")" ∷ []))
        "PR not open" d1 in
    let d3 = check_label_target obj obs d2 in
    let d4 = check_label_moved obj obs d3 in
    let d5 =
      check obj.issue_commented obs.issue_commented "issue commented" "no comment posted on issue"
        d4 in
    record d5 { all_met = is_empty_list d5.missing }

bullet : String → String → String
bullet mark line = concat (mark ∷ line ∷ "\n" ∷ [])

-- `Delta.Message`.
pub message : Delta → String → ℕ → String → String
unfolding bullet
message d repo issue_num branch = concat (
    "Post-condition check for "
    ∷ repo
    ∷ "#"
    ∷ itoa issue_num
    ∷ " (branch "
    ∷ branch
    ∷ "):\n"
    ∷ concat (map (bullet "  [ok] ") d.met)
    ∷ concat (map (bullet "  [MISSING] ") d.missing)
    ∷ (if is_empty_list d.missing then "" else "\nPlease address the missing conditions above.")
    ∷ [])

pub data Action : Type 0 where
  resume block complete : Action

pub record Decision : Type 0 where
  pub action : Action
  pub message : String
  pub round : ℕ

same_lines : List String → List String → Bool
same_lines [] [] = true
same_lines (x ∷ xs) (y ∷ ys) = str_eq x y && same_lines xs ys
same_lines _ _ = false

pub same_unmet : Delta → Delta → Bool
unfolding same_lines
same_unmet a b =
    if not (length a.missing == length b.missing)
    then false
    else same_lines (sort_strings a.missing) (sort_strings b.missing)

-- `c.MaxRounds`, 5 where it is not positive. (The field is an `int`; a negative one counts as 0.)
pub max_rounds_of : ℕ → ℕ
max_rounds_of n = if n == 0 then 5 else n

-- "the previous delta is there and has the same unmet conditions"
is_stuck : Delta → Option Delta → Bool
is_stuck delta none = false
is_stuck delta (some prev) = same_unmet delta prev

pub decide_round : (max_rounds : ℕ) → Delta → (round : ℕ) → Option Delta → Decision
decide_round max_rounds delta round prev =
    if delta.all_met
    then record { action = complete; message = ""; round = round }
    else if leb (max_rounds_of max_rounds) round
    then record {
      action = block;
      message = concat (
          "exhausted "
          ∷ itoa round
          ∷ " control rounds; unmet: "
          ∷ join_strings ", " delta.missing
          ∷ []);
      round = round;
    }
    else if is_stuck delta prev && leb 3 round
    then record {
      action = block;
      message = concat (
          "stuck: same conditions unmet for "
          ∷ itoa round
          ∷ " rounds: "
          ∷ join_strings ", " delta.missing
          ∷ []);
      round = round;
    }
    else record { action = resume; message = ""; round = round }

pub data Outcome {ℓ} (A : Type ℓ) : Type ℓ where
  ok : A → Outcome A
  err : String → Outcome A

pub record LoopConfig : Type 0 where
  pub repo : String
  pub issue_num : ℕ
  pub branch : String
  pub objective : Objective
  pub max_rounds : ℕ

pub record LoopResult : Type 0 where
  pub action : Action
  pub rounds : ℕ
  pub message : String
  pub deltas : List Delta
  pub failed : Bool  -- the second result of `Run` is an error

-- `if decision.Action != ActionResume`.
settle {ℓ} : {A : Type ℓ} → Action → A → A → A
settle resume go_on stop = go_on
settle _ go_on stop = stop

-- The callback and the observer are not under internal/control: they read and change a world `W`.
module _ {W : Type 0} (run_agent : W → String → String → Outcome String × W)
    (observe : W → String → ℕ → String → Outcome Observation × W) where
  prompt_of : LoopConfig → (round : ℕ) → Option Delta → String
  prompt_of cfg zero prev = ""
  prompt_of cfg (suc round) none = ""
  prompt_of cfg (suc round) (some d) = message d cfg.repo cfg.issue_num cfg.branch

  -- What one turn of the loop comes to: a return, or the variables of the next turn.
  pub data Turn : Type 0 where
    return : LoopResult → W → Turn
    again : (prev : Delta) (session : String) (deltas : List Delta) (w : W) → Turn

  decided : LoopConfig → ℕ → Option Delta → String → List Delta → Observation → W → Turn
  decided cfg round prev session deltas obs w =
      let delta = feedback cfg.objective obs in
      let deltas' = deltas ++ delta ∷ [] in
      let d = decide_round cfg.max_rounds delta (suc round) prev in
      settle d.action (again delta session deltas' w) (
        return
          (record {
            action = d.action;
            rounds = suc round;
            message = d.message;
            deltas = deltas';
            failed = false;
          })
          w)

  observed : LoopConfig → ℕ → Option Delta → String → List Delta → Outcome Observation × W → Turn
  unfolding decided
  observed cfg round prev session deltas (ok obs, w) = decided cfg round prev session deltas obs w
  observed cfg round prev session deltas (err e, w) =
      return
        (record { action = block; rounds = suc round; message = e; deltas = deltas; failed = true })
        w

  ran : LoopConfig → ℕ → Option Delta → List Delta → Outcome String × W → Turn
  unfolding observed
  ran cfg round prev deltas (ok session, w) =
      observed cfg round prev session deltas (observe w cfg.repo cfg.issue_num cfg.branch)
  ran cfg round prev deltas (err e, w) =
      return
        (record { action = block; rounds = suc round; message = e; deltas = deltas; failed = true })
        w

  pub turn : LoopConfig → ℕ → Option Delta → String → List Delta → W → Turn
  unfolding ran prompt_of
  turn cfg round prev session deltas w =
      ran cfg round prev deltas
        (run_agent w (prompt_of cfg round prev) (if round == 0 then "" else session))

  -- `for round := 0; ; round++`, on fuel: `none` means that the fuel ran out.
  pub run_rounds :
      ℕ → LoopConfig → ℕ → Option Delta → String → List Delta → W → Option (LoopResult × W)
  run_rounds zero cfg round prev session deltas w = none
  run_rounds (suc fuel) cfg round prev session deltas w =
      elim (turn cfg round prev session deltas w) [
        | return r w' ↦ some (r, w')
        | again prev' session' deltas' w' ↦
            run_rounds fuel cfg (suc round) (some prev') session' deltas' w'
      ]

  pub run_loop : LoopConfig → W → Option (LoopResult × W)
  run_loop cfg w = run_rounds (max_rounds_of cfg.max_rounds) cfg 0 none "" [] w
