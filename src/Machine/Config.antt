-- ===== src/Machine/Config.antt =====
-- internal/config/types.go: what a workflow says, as the state machine reads it. (Counts that are not
-- positive all mean the default; they stand here as 0.)
use workbuddy.Prelude.{ℕ, String, List}

pub record JoinConfig : Type 0 where
  pub strategy : String
  pub min_successes : ℕ

pub record State : Type 0 where
  pub enter_label : String
  pub agent : String
  pub agents : List String
  pub mode : String
  pub join : JoinConfig
  pub rollouts : ℕ
  pub transitions : List (String × String)

pub record Workflow : Type 0 where
  pub name : String
  pub issue_label : String
  pub max_retries : ℕ
  pub max_review_cycles : ℕ
  pub states : List (String × State)

abbrev pub join_all_passed : String
join_all_passed = "all_passed"

abbrev pub join_any_passed : String
join_any_passed = "any_passed"

abbrev pub join_rollouts : String
join_rollouts = "rollouts"

abbrev pub state_mode_review : String
state_mode_review = "review"

abbrev pub state_mode_synth : String
state_mode_synth = "synthesize"

abbrev pub default_join_config : JoinConfig
default_join_config = record { strategy = join_all_passed; min_successes = 0 }
