-- ===== src/Machine/Watch.antt =====
-- internal/statemachine/statemachine.go: what becomes of a group that nobody completes, and of an issue
-- whose labels do not move (inspectInflightTaskStatus, reconcileStaleInflight, recordStuckCandidate,
-- CheckStuck), for one issue.
use Prim.Native.Char.{code}
use workbuddy.Prelude.{
  ℕ, ◌+◌, ◌-◌, ◌*◌, String, Bool, true, false, not, ◌&&◌, ◌||◌, Option, none, some, List, [], ◌∷◌,
  ltb, leb, ◌==◌, if◌then◌else◌, str_eq,
}
use workbuddy.Store.Tasks.Row.{Task, pending, running, completed}
use workbuddy.Store.Tasks.Queue.{Tasks}
use workbuddy.Store.Tasks.Queries.{list_issue_tasks}
use workbuddy.Machine.Groups.{DispatchGroup}

-- `strings.TrimPrefix` where the prefix is there.
unfoldable pub after_prefix : String → String → Option String
after_prefix s String.[] = some s
after_prefix String.[] (String.◌∷◌ _ _) = none
after_prefix (String.◌∷◌ c s) (String.◌∷◌ d p) =
    let rest = after_prefix s p in if code c == code d then rest else none

unfoldable pub digits_from : ℕ → String → Option ℕ
digits_from n String.[] = some n
digits_from n (String.◌∷◌ c s) =
    let rest = digits_from (n * 10 + (code c - 48)) s in
    if leb 48 (code c) && leb (code c) 57 then rest else none

-- `strconv.Atoi` of a text without a sign that fits an int.
unfoldable pub atoi : String → Option ℕ
atoi String.[] = none
atoi (String.◌∷◌ c s) = digits_from 0 (String.◌∷◌ c s)

-- Which rollout a slot waits for: 0 where the key is an agent's name.
pub data Wanted : Type 0 where
  unreadable : Wanted
  rollout : ℕ → Wanted

unfoldable pub wanted_number : Option ℕ → Wanted
wanted_number none = unreadable
wanted_number (some n) = rollout n

unfoldable pub wanted_after : Option String → Wanted
wanted_after none = rollout 0
wanted_after (some digits) = wanted_number (atoi digits)

unfoldable pub wanted : String → Wanted
wanted slot_key = wanted_after (after_prefix slot_key "rollout:")

unfoldable pub is_slot_task : DispatchGroup → (agent : String) → ℕ → Task → Bool
is_slot_task g agent n t =
    str_eq t.workflow g.workflow
    && str_eq t.state g.state
    && (if ltb 0 n then t.rollout_index == n else t.rollout_index == 0 && str_eq t.agent_name agent)

-- A time of 0 is the zero time.
unfoldable pub task_recency : Task → ℕ
task_recency t = if t.updated_at == 0 then t.created_at else t.updated_at

unfoldable pub later : Option Task → Task → Option Task
later none t = some t
later (some best) t = if ltb (task_recency best) (task_recency t) then some t else some best

unfoldable pub find_slot_task : DispatchGroup → String → ℕ → Option Task → Tasks → Option Task
find_slot_task g agent n best [] = best
find_slot_task g agent n best (t ∷ ts) =
    if is_slot_task g agent n t
    then find_slot_task g agent n (later best t) ts
    else find_slot_task g agent n best ts

unfoldable pub find_wanted_task : DispatchGroup → String → Wanted → Tasks → Option Task
find_wanted_task g agent unreadable tasks = none
find_wanted_task g agent (rollout n) tasks = find_slot_task g agent n none tasks

unfoldable pub find_inflight_slot_task : DispatchGroup → String × String → Tasks → Option Task
find_inflight_slot_task g (slot_key, agent) tasks = find_wanted_task g agent (wanted slot_key) tasks

unfoldable pub lease_start : Task → Option ℕ
lease_start t = elim t.heartbeat_at [ some h ↦ some h | none ↦ t.acked_at ]

abbrev pub default_task_lease : ℕ
default_task_lease = 30

unfoldable pub lease_since : ℕ → Option ℕ → ℕ
lease_since expires none = default_task_lease
lease_since expires (some start) = if leb expires start then default_task_lease else expires - start

unfoldable pub runs_live : ℕ → Task → Option ℕ → Bool
runs_live now t none = true
runs_live now t (some expires) = ltb now (expires + 5 * lease_since expires (lease_start t))

unfoldable pub keeps_group_live : ℕ → Task → Bool
keeps_group_live now t = elim t.status [
  | pending ↦ true
  | running ↦ runs_live now t t.lease_expires_at
  | completed ↦ true
  | _ ↦ false
]

abbrev pub live_if_found : ℕ → Option Task → Bool
live_if_found now none = false
live_if_found now (some t) = keeps_group_live now t

unfoldable pub any_live : ℕ → DispatchGroup → Tasks → List (String × String) → Bool
any_live now g tasks [] = false
any_live now g tasks (s ∷ slots) =
    live_if_found now (find_inflight_slot_task g s tasks) || any_live now g tasks slots

abbrev pub no_slots : List (String × String) → Bool
no_slots [] = true
no_slots (_ ∷ _) = false

-- The second result of `inspectInflightTaskStatus`, over the tasks of the issue.
unfoldable pub all_reclaimable : ℕ → DispatchGroup → Tasks → Bool
all_reclaimable now g tasks = not (no_slots g.slots) && not (any_live now g tasks g.slots)

unfoldable pub reconcile_stale_inflight :
    (now : ℕ)
    → (repo : String) → (issue_num : ℕ) → Tasks
    → Option DispatchGroup
    → Option DispatchGroup
reconcile_stale_inflight now repo issue_num tasks none = none
reconcile_stale_inflight now repo issue_num tasks (some g) =
    if all_reclaimable now g (list_issue_tasks repo issue_num tasks) then none else some g

-- The record keeps the JSON text of the labels, in the order that they came in; it stands here as the list.
pub record CompletionRecord : Type 0 where
  pub at : ℕ
  pub labels : List String

unfoldable pub record_stuck_candidate :
    ℕ → List String → Option CompletionRecord → Option CompletionRecord
record_stuck_candidate now labels rec = some (record { at = now; labels = labels })

unfoldable pub same_text : List String → List String → Bool
same_text [] [] = true
same_text (x ∷ xs) (y ∷ ys) = str_eq x y && same_text xs ys
same_text _ _ = false

-- The first result says that the issue is reported as stuck.
unfoldable pub check_stuck :
    ℕ → (stuck_timeout : ℕ) → List String → Option CompletionRecord → Bool × Option CompletionRecord
check_stuck now stuck_timeout labels none = (false, none)
check_stuck now stuck_timeout labels (some rec) =
    if ltb (now - rec.at) stuck_timeout
    then (false, some rec)
    else if same_text labels rec.labels
    then (true, none)
    else (false, none)
