-- ===== src/Poller/Examples.antt =====
-- A poll cycle at concrete inputs.
use workbuddy.Prelude.{ℕ, String, ◌≡◌, ◌⊎◌, Bool, false, some, [], ◌∷◌, refl, inl, lookup, nat_eq}
use workbuddy.Poller.{Issue, Poller, listed, row_of, issue_events, poll}
use workbuddy.Poller.Diffs.{issue_events-quiet}
use workbuddy.Poller.Cycles.{Justified, poll-Justified}
use workbuddy.Poller.Synced.{poll-Synced}
use workbuddy.Poller.Commits.{Aborts, Faults, Commits, poll-Whole}

abbrev issue : Issue
issue = record {
  number = 7;
  title = "title";
  state = "open";
  labels = "workbuddy" ∷ "status:developing" ∷ [];
  body = "";
  author = "dev";
}

abbrev poller : Poller
poller = record {
  repo = "o/r";
  backoff = 0;
  resync_interval = 600;
  last_resync_at = (7, 100) ∷ [];
  cache =
      (7, record { labels = "workbuddy" ∷ []; body = ""; state = "open" })
      ∷ (8, record { labels = []; body = ""; state = "open" })
      ∷ [];
}

-- The states that the forge reports are in lower case here.
abbrev same : String → String
same s = s

abbrev readable : ℕ → Bool
readable n = false

issue_events-quiet_example : issue_events "o/r" issue (some (row_of same issue)) ≡ []
issue_events-quiet_example = issue_events-quiet same "o/r" issue

poll-Justified_example :
    Justified same 1000
      (issue ∷ [])
      []
      poller
      (poll same 1000 readable false (listed (issue ∷ [])) (listed []) poller).0
poll-Justified_example = poll-Justified same 1000 readable false (issue ∷ []) [] poller

poll-Whole_example :
    let out = poll same 1000 readable false (listed (issue ∷ [])) (listed []) poller in
    (Aborts poller out × Faults readable false (listed (issue ∷ [])) (listed []))
    ⊎ Commits same 1000 readable false (listed (issue ∷ [])) (listed []) poller out
poll-Whole_example = poll-Whole same 1000 readable false (listed (issue ∷ [])) (listed []) poller

poll-Synced_example :
    let out = poll same 1000 readable false (listed (issue ∷ [])) (listed []) poller in
    Aborts poller out ⊎ (lookup 7 out.1.cache ≡ some (row_of same issue))
poll-Synced_example =
    poll-Synced same 1000 issue readable false (issue ∷ []) [] poller (inl (refl, tt)) tt
