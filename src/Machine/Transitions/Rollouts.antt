-- ===== src/Machine/Transitions/Rollouts.antt =====
-- How many rollouts a state starts (internal/statemachine/statemachine.go, resolveStateRollouts).
use workbuddy.Prelude.{
  ℕ, ◌≤◌, String, ◌≡◌, ◌≢◌, ◌⊎◌, true, false, List, ◌<◌, has_prefix, trim_space, All, Some,
}
use workbuddy.Machine.Config.{State}
use workbuddy.Machine.Transitions.{
  plain, invalid_label, number, names, Resolved, rollouts, conflicting, invalid, default_rollouts,
}

-- What the loop over the labels answers, from an override on.
abbrev Scanned : ℕ → List String → Resolved → Type 0
Scanned o ls (rollouts n) =
    All (λ l. (names l ≡ plain) ⊎ (names l ≡ number n)) ls
    × ((n ≡ o) ⊎ ((o ≡ 0) × Some (λ l. names l ≡ number n) ls))
Scanned o ls (invalid t) = Some (λ l. names l ≡ invalid_label) ls
Scanned o ls (conflicting t) =
    (m : ℕ) × (n : ℕ) × (m ≢ n)
    × (m ≢ 0)
    × ((m ≡ o) ⊎ Some (λ l. names l ≡ number m) ls)
    × Some (λ l. names l ≡ number n) ls

-- What the labels and the state say together, in terms of the model's reading of a label.
abbrev Scans : State → List String → Resolved → Type 0
Scans s ls (rollouts n) =
    ((n ≡ default_rollouts s) × All (λ l. names l ≡ plain) ls)
    ⊎ ((2 ≤ n)
        × (n ≤ 5)
        × All (λ l. (names l ≡ plain) ⊎ (names l ≡ number n)) ls
        × Some (λ l. names l ≡ number n) ls)
Scans s ls (invalid t) = Some (λ l. names l ≡ invalid_label) ls
Scans s ls (conflicting t) =
    (m : ℕ) × (n : ℕ) × (m ≢ n)
    × Some (λ l. names l ≡ number m) ls
    × Some (λ l. names l ≡ number n) ls

-- The labels that ask for a number of rollouts, those that are not of rollouts, and those that are none of these.
abbrev pub Asks : ℕ → String → Type 0
Asks n l =
    ((trim_space l ≡ "rollouts:2") × (n ≡ 2))
    ⊎ ((trim_space l ≡ "rollouts:3") × (n ≡ 3))
    ⊎ ((trim_space l ≡ "rollouts:4") × (n ≡ 4))
    ⊎ ((trim_space l ≡ "rollouts:5") × (n ≡ 5))

abbrev pub IsOther : String → Type 0
IsOther l = has_prefix (trim_space l) "rollouts:" ≡ false

abbrev pub IsInvalid : String → Type 0
IsInvalid l =
    (has_prefix (trim_space l) "rollouts:" ≡ true)
    × (trim_space l ≢ "rollouts:2")
    × (trim_space l ≢ "rollouts:3")
    × (trim_space l ≢ "rollouts:4")
    × (trim_space l ≢ "rollouts:5")

abbrev pub Fixes : State → List String → Resolved → Type 0
Fixes s ls (rollouts n) =
    ((((0 < s.rollouts) × (n ≡ s.rollouts)) ⊎ ((s.rollouts ≡ 0) × (n ≡ 1))) × All IsOther ls)
    ⊎ (All (λ l. IsOther l ⊎ Asks n l) ls × Some (Asks n) ls)
Fixes s ls (invalid t) = Some IsInvalid ls
Fixes s ls (conflicting t) = (m : ℕ) × (n : ℕ) × (m ≢ n) × Some (Asks m) ls × Some (Asks n) ls
