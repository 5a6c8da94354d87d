-- ===== src/Store/Keys.antt =====
-- The key (repo, issue_num) of the tables about an issue, and of the maps keyed by "repo#issue".
-- (The text "repo#issue" determines both parts: the number holds no '#'.)
use workbuddy.Prelude.{ℕ, String, ◌≡◌, ◌↔◌, Bool, true, ◌&&◌, arith, ◌==◌, str_eq, str_eq_iff, Eq}

pub record IssueKey : Type 0 where
  pub repo : String
  pub issue_num : ℕ

unfoldable pub key_eq : IssueKey → IssueKey → Bool
key_eq a b = str_eq a.repo b.repo && a.issue_num == b.issue_num

pub key_eq_iff : (a b : IssueKey) → (key_eq a b ≡ true) ↔ (a ≡ b)
unfolding key_eq
key_eq_iff a b = ground (arith, str_eq_iff a.repo b.repo)

instance abbrev pub issue_key_eq : Eq IssueKey
issue_key_eq = record { beq = key_eq; beq_iff = key_eq_iff }
