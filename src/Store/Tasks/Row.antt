-- ===== src/Store/Tasks/Row.antt =====
-- A row of task_queue, and the conditions on rows that the statements use.
use Prim.Native.Char.{code}
use workbuddy.Prelude.{◌&&◌, ◌==◌, ℕ, String, Bool, true, false, Option, none, some, ltb, str_eq, ℤ}

-- The column is a text: `other` stands for the texts that no constant names.
pub data Status : Type 0 where
  pending running completed failed timeout : Status
  other : String → Status

pub record Task : Type 0 where
  pub id : String
  pub repo : String
  pub issue_num : ℕ
  pub agent_name : String
  pub role : String
  pub runtime : String
  pub workflow : String
  pub state : String
  pub worker_id : Option String
  pub claim_token : Option String
  pub status : Status
  pub lease_expires_at : Option ℕ
  pub acked_at : Option ℕ
  pub heartbeat_at : Option ℕ
  pub completed_at : Option ℕ
  pub exit_code : ℤ
  pub session_refs : String
  pub rollout_index : ℕ
  pub rollouts_total : ℕ
  pub rollout_group_id : String
  pub created_at : ℕ
  pub updated_at : ℕ

abbrev pub is_pending : Status → Bool
is_pending pending = true
is_pending _ = false

abbrev pub is_running : Status → Bool
is_running running = true
is_running _ = false

-- `status IN ('pending', 'running')`
abbrev pub is_active : Status → Bool
is_active pending = true
is_active running = true
is_active _ = false

-- `status IN ('completed', 'failed', 'timeout')`
abbrev pub is_terminal : Status → Bool
is_terminal completed = true
is_terminal failed = true
is_terminal timeout = true
is_terminal _ = false

-- A scanned column: NULL reads as the empty text.
abbrev pub scanned : Option String → String
scanned none = ""
scanned (some v) = v

-- `column = ?`: NULL equals nothing.
abbrev pub sql_eq : Option String → String → Bool
sql_eq none w = false
sql_eq (some v) w = str_eq v w

-- `TRIM(runtime) = ''`: SQL trims the space alone.
unfoldable pub sql_blank : String → Bool
sql_blank String.[] = true
sql_blank (String.◌∷◌ c s) = (code c == 32) && sql_blank s

-- `lease_expires_at IS NULL OR lease_expires_at < CURRENT_TIMESTAMP`
abbrev pub lease_free : ℕ → Option ℕ → Bool
lease_free now none = true
lease_free now (some e) = ltb e now

-- `lease_expires_at IS NOT NULL AND lease_expires_at > CURRENT_TIMESTAMP`
abbrev pub lease_live : ℕ → Option ℕ → Bool
lease_live now none = false
lease_live now (some e) = ltb now e

abbrev pub has_id : String → Task → Bool
has_id id t = str_eq t.id id
