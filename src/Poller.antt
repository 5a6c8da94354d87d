-- ===== src/Poller.antt =====
-- internal/poller/poller.go: one poll cycle of one repository. Times are seconds. The listings of the
-- forge and the readability of the cache are inputs of the cycle; the context is not cancelled, and a
-- cache write does not fail.
mod Diffs
mod Cycles
mod Commits
mod Synced
mod Examples
use workbuddy.Prelude.{
  ℕ, suc, ◌+◌, ◌-◌, ◌*◌, String, Bool, true, false, not, ◌&&◌, ◌||◌, Option, none, some, List, [],
  ◌∷◌, ◌++◌, map, ltb, leb, ◌==◌, if◌then◌else◌, str_eq, has_prefix, length, contains, any, concat,
  sort_strings, lookup, insert, delete, nat_eq,
}

pub record Issue : Type 0 where
  pub number : ℕ
  pub title : String
  pub state : String
  pub labels : List String
  pub body : String
  pub author : String

pub record Pr : Type 0 where
  pub number : ℕ
  pub branch : String
  pub state : String

pub data EventType : Type 0 where
  issue_created label_added label_removed pr_created pr_state_changed : EventType
  issue_closed issue_resynced poll_cycle_done : EventType

pub record ChangeEvent : Type 0 where
  pub type : EventType
  pub repo : String
  pub issue_num : ℕ
  pub labels : List String
  pub detail : String
  pub author : String

-- A row of issue_cache. The column with the labels holds their JSON text, sorted; it stands here as the
-- list that the text encodes.
pub record CacheRow : Type 0 where
  pub labels : List String
  pub body : String
  pub state : String

abbrev pub Cache : Type 0
Cache = List (ℕ × CacheRow)

unfoldable pub missing_from : List String → List String → List String
missing_from known [] = []
missing_from known (l ∷ ls) =
    if contains known l then missing_from known ls else l ∷ missing_from known ls

unfoldable pub diff_labels : (old new_labels : List String) → List String × List String
diff_labels old new_labels = (missing_from old new_labels, missing_from new_labels old)

unfoldable pub label_event : String → Issue → EventType → String → ChangeEvent
label_event repo iss type detail = record {
  type = type;
  repo = repo;
  issue_num = iss.number;
  labels = iss.labels;
  detail = detail;
  author = iss.author;
}

-- What a cycle writes when it commits.
pub data CacheOp : Type 0 where
  upsert : ℕ → CacheRow → CacheOp
  close : ℕ → CacheOp
  stamp : ℕ → CacheOp

unfoldable pub issue_events : String → Issue → Option CacheRow → List ChangeEvent
issue_events repo iss none = label_event repo iss issue_created iss.title ∷ []
issue_events repo iss (some row) =
    let (added, removed) = diff_labels row.labels iss.labels in
    map (label_event repo iss label_added) added ++ map (label_event repo iss label_removed) removed

abbrev pr_event : String → Pr → EventType → String → ChangeEvent
pr_event repo pr type detail = record {
  type = type;
  repo = repo;
  issue_num = pr.number;
  labels = [];
  detail = detail;
  author = "";
}

-- The plan of a cycle, as the first phase collects it.
pub record Plan : Type 0 where
  pub pending : List ChangeEvent
  pub cache_ops : List CacheOp
  pub resync_candidates : List Issue
  pub first_sightings : List ℕ

abbrev no_plan : Plan
no_plan = record { pending = []; cache_ops = []; resync_candidates = []; first_sightings = [] }

abbrev is_nil : List String → Bool
is_nil [] = true
is_nil (_ ∷ _) = false

abbrev is_some : Option CacheRow → Bool
is_some none = false
is_some (some _) = true

abbrev pub gh_list_limit : ℕ
gh_list_limit = 100

unfoldable pub is_open : List Issue → List Pr → ℕ → Bool
is_open issues prs num = any (λ i. i.number == num) issues || any (λ q. q.number == num) prs

abbrev closed_event : String → ℕ → ChangeEvent
closed_event repo num = record {
  type = issue_closed;
  repo = repo;
  issue_num = num;
  labels = [];
  detail = "issue no longer in open issues list";
  author = "";
}

-- `ListCachedIssueNums` leaves the rows of PRs out.
unfoldable pub plan_closed : String → List Issue → List Pr → Cache → Plan → Plan
plan_closed repo issues prs [] p = p
plan_closed repo issues prs ((num, row) ∷ rest) p =
    if has_prefix row.state "pr:" || is_open issues prs num
    then plan_closed repo issues prs rest p
    else plan_closed repo issues prs rest (record p {
      pending = p.pending ++ closed_event repo num ∷ [];
      cache_ops = p.cache_ops ++ close num ∷ [];
    })

unfoldable pub plan_closes : String → List Issue → List Pr → Cache → Plan → Plan
plan_closes repo issues prs cache p =
    if leb gh_list_limit (length issues) then p else plan_closed repo issues prs cache p

unfoldable pub due : ℕ → ℕ → Option ℕ → Bool
due now interval none = true
due now interval (some last) = not (ltb (now - last) interval)

unfoldable pub plan_resyncs : String → ℕ → ℕ → List (ℕ × ℕ) → List Issue → Plan → Plan
plan_resyncs repo now interval last [] p = p
plan_resyncs repo now interval last (iss ∷ rest) p =
    if due now interval (lookup iss.number last)
    then plan_resyncs repo now interval last rest (record p {
      pending = p.pending ++ label_event repo iss issue_resynced iss.title ∷ [];
      cache_ops = p.cache_ops ++ stamp iss.number ∷ [];
    })
    else plan_resyncs repo now interval last rest p

pub record Poller : Type 0 where
  pub repo : String
  pub backoff : ℕ
  pub resync_interval : ℕ
  pub last_resync_at : List (ℕ × ℕ)
  pub cache : Cache

unfoldable pub apply_op : ℕ → CacheOp → Poller → Poller
apply_op now (upsert n row) p = record p { cache = insert n row p.cache }
apply_op now (close n) p = record p {
  cache = delete n p.cache;
  last_resync_at = delete n p.last_resync_at;
}
apply_op now (stamp n) p = record p { last_resync_at = insert n now p.last_resync_at }

unfoldable pub commit : ℕ → List CacheOp → Poller → Poller
commit now [] p = p
commit now (op ∷ ops) p = commit now ops (apply_op now op p)

abbrev pub max_backoff : ℕ
max_backoff = 900

unfoldable pub apply_backoff : ℕ → ℕ
apply_backoff backoff =
    let raised = if backoff == 0 then 60 else backoff * 2 in
    if ltb max_backoff raised then max_backoff else raised

-- `ListIssues` and `ListPRs`.
pub data Listing {ℓ} (A : Type ℓ) : Type ℓ where
  listed : List A → Listing A
  rate_limited unavailable : Listing A

unfoldable pub finish : ℕ → List Issue → List Pr → Plan → Poller → List ChangeEvent × Poller
finish now issues prs p poller =
    let closing = plan_closes poller.repo issues prs poller.cache p in
    let p' =
      plan_resyncs poller.repo now poller.resync_interval poller.last_resync_at p.resync_candidates
        closing in
    (
      p'.pending
          ++ record {
            type = poll_cycle_done;
            repo = poller.repo;
            issue_num = 0;
            labels = [];
            detail = "";
            author = "";
          }
            ∷ [],
      commit now (p'.cache_ops ++ map stamp p.first_sightings) (record poller { backoff = 0 }),
    )

-- `unreadable` and `unlistable`: the cached row, and the numbers of the cached rows, cannot be read.
unfoldable pub planned :
    ℕ
    → (unlistable : Bool) → List Issue
    → List Pr
    → Option Plan
    → Poller
    → List ChangeEvent × Poller
planned now unlistable issues prs none poller = ([], poller)
planned now unlistable issues prs (some p) poller =
    if not (leb gh_list_limit (length issues)) && unlistable
    then ([], poller)
    else finish now issues prs p poller

-- `strings.ToLower` is applied to the states as they come in.
module _ (to_lower : String → String) where
  unfoldable pub row_of : Issue → CacheRow
  row_of iss = record {
    labels = sort_strings iss.labels;
    body = iss.body;
    state = to_lower iss.state;
  }

  unfoldable pub pr_state : Pr → String
  pr_state pr = concat ("pr:" ∷ to_lower pr.state ∷ [])

  unfoldable pub pr_events : String → Pr → Option CacheRow → List ChangeEvent
  pr_events repo pr none = pr_event repo pr pr_created pr.branch ∷ []
  pr_events repo pr (some row) =
      if str_eq row.state (pr_state pr)
      then []
      else pr_event repo pr pr_state_changed (concat (row.state ∷ " -> " ∷ pr_state pr ∷ [])) ∷ []

  unfoldable pub plan_issue : String → Cache → Issue → Plan → Plan
  plan_issue repo cache iss p =
      let cached = lookup iss.number cache in
      record {
        pending = p.pending ++ issue_events repo iss cached;
        cache_ops = p.cache_ops ++ upsert iss.number (row_of iss) ∷ [];
        resync_candidates =
            if is_some cached && not (is_nil iss.labels)
            then p.resync_candidates ++ iss ∷ []
            else p.resync_candidates;
        first_sightings =
            if not (is_some cached) && not (is_nil iss.labels)
            then p.first_sightings ++ iss.number ∷ []
            else p.first_sightings;
      }

  -- `none`: the cache could not be read.
  unfoldable pub plan_issues :
      String → (unreadable : ℕ → Bool) → Cache → List Issue → Plan → Option Plan
  plan_issues repo unreadable cache [] p = some p
  plan_issues repo unreadable cache (iss ∷ rest) p =
      let planned = plan_issues repo unreadable cache rest (plan_issue repo cache iss p) in
      if unreadable iss.number then none else planned

  unfoldable pub plan_pr : String → Cache → Pr → Plan → Plan
  plan_pr repo cache pr p = record p {
    pending = p.pending ++ pr_events repo pr (lookup pr.number cache);
    cache_ops =
        p.cache_ops
        ++ upsert pr.number (record { labels = []; body = ""; state = pr_state pr }) ∷ [];
  }

  unfoldable pub plan_prs : String → (unreadable : ℕ → Bool) → Cache → List Pr → Plan → Option Plan
  plan_prs repo unreadable cache [] p = some p
  plan_prs repo unreadable cache (pr ∷ rest) p =
      let planned = plan_prs repo unreadable cache rest (plan_pr repo cache pr p) in
      if unreadable pr.number then none else planned

  unfoldable pub after_issues :
      ℕ
      → (unreadable : ℕ → Bool) → (unlistable : Bool) → List Issue
      → Listing Pr
      → Option Plan
      → Poller
      → List ChangeEvent × Poller
  after_issues now unreadable unlistable issues prs none poller = ([], poller)
  after_issues now unreadable unlistable issues rate_limited (some p) poller =
      ([], record poller { backoff = apply_backoff poller.backoff })
  after_issues now unreadable unlistable issues unavailable (some p) poller = ([], poller)
  after_issues now unreadable unlistable issues (listed prs) (some p) poller =
      planned now unlistable issues prs (plan_prs poller.repo unreadable poller.cache prs p) poller

  -- `poll`.
  unfoldable pub poll :
      ℕ
      → (unreadable : ℕ → Bool) → (unlistable : Bool) → Listing Issue
      → Listing Pr
      → Poller
      → List ChangeEvent × Poller
  poll now unreadable unlistable rate_limited prs poller =
      ([], record poller { backoff = apply_backoff poller.backoff })
  poll now unreadable unlistable unavailable prs poller = ([], poller)
  poll now unreadable unlistable (listed issues) prs poller =
      after_issues now unreadable unlistable issues prs
        (plan_issues poller.repo unreadable poller.cache issues no_plan) poller
