-- ===== src/Bus.antt =====
-- internal/alertbus/alertbus.go and internal/tasknotify/hub.go (a bus whose buffer is 1): the subscribers and
-- their channels, with the steps between which other goroutines may run. A publisher takes the channels under the
-- lock and sends without it; an unsubscription deletes under the lock and closes without it. The lock makes each
-- step one action.
mod Runs
mod Delivery
mod Examples
use workbuddy.Prelude.{
  ℕ, zero, suc, Bool, true, false, Option, none, some, List, [], ◌∷◌, ◌++◌, ltb, ◌==◌,
  if◌then◌else◌, length, lookup, insert, delete, nat_eq,
}

pub record Channel (E : Type 0) : Type 0 where
  pub queue : List E
  pub closed : Bool

-- `closing`: deleted from the map and not yet closed. `jobs`: what publishers still have to send.
pub record Bus (E : Type 0) : Type 0 where
  pub next_id : ℕ
  pub buffer : ℕ
  pub subscribers : List (ℕ × Bool)
  pub closing : List (ℕ × Bool)
  pub channels : List (ℕ × Channel E)
  pub jobs : List (ℕ × E)
  pub panicked : Bool

pub data Action (E : Type 0) : Type 0 where
  subscribe : Action E
  unsubscribe close_channel receive : ℕ → Action E
  publish : E → Action E
  send : (job : ℕ) → Action E

unfoldable pub new_bus : {E : Type 0} → ℕ → Bus E
new_bus buffer = record {
  next_id = 0;
  buffer = if buffer == 0 then 64 else buffer;
  subscribers = [];
  closing = [];
  channels = [];
  jobs = [];
  panicked = false;
}

-- One send for each subscriber of the moment.
unfoldable pub jobs_for : {E : Type 0} → E → List (ℕ × Bool) → List (ℕ × E)
jobs_for event [] = []
jobs_for event ((id, b) ∷ subs) = (id, event) ∷ jobs_for event subs

unfoldable pub pick : {E : Type 0} → ℕ → List (ℕ × E) → Option (ℕ × E)
pick n [] = none
pick zero (j ∷ js) = some j
pick (suc n) (j ∷ js) = pick n js

unfoldable pub drop_job : {E : Type 0} → ℕ → List (ℕ × E) → List (ℕ × E)
drop_job n [] = []
drop_job zero (j ∷ js) = js
drop_job (suc n) (j ∷ js) = j ∷ drop_job n js

-- `select { case ch <- event: default: }`: a send on a closed channel panics.
unfoldable pub send_to : {E : Type 0} → ℕ → E → Option (Channel E) → Bus E → Bus E
send_to id event none b = b
send_to id event (some c) b =
    if c.closed
    then record b { panicked = true }
    else if ltb (length c.queue) b.buffer
    then record b { channels = insert id (record c { queue = c.queue ++ event ∷ [] }) b.channels }
    else b

unfoldable pub send_job : {E : Type 0} → Option (ℕ × E) → Bus E → Bus E
send_job none b = b
send_job (some (id, event)) b = send_to id event (lookup id b.channels) b

unfoldable pub tail_of : {E : Type 0} → List E → List E
tail_of [] = []
tail_of (e ∷ es) = es

unfoldable pub receive_from : {E : Type 0} → ℕ → Option (Channel E) → Bus E → Bus E
receive_from id none b = b
receive_from id (some c) b = record b {
  channels = insert id (record c { queue = tail_of c.queue }) b.channels;
}

unfoldable pub drop_subscriber : {E : Type 0} → ℕ → Option Bool → Bus E → Bus E
drop_subscriber id none b = b
drop_subscriber id (some _) b = record b {
  subscribers = delete id b.subscribers;
  closing = insert id true b.closing;
}

unfoldable pub shut : {E : Type 0} → ℕ → Option Bool → Option (Channel E) → Bus E → Bus E
shut id (some _) (some c) b = record b {
  closing = delete id b.closing;
  channels = insert id (record c { closed = true }) b.channels;
}
shut id (some _) none b = b
shut id none c b = b

unfoldable pub act : {E : Type 0} → Action E → Bus E → Bus E
act subscribe b =
    let id = suc b.next_id in
    record b {
      next_id = id;
      subscribers = insert id true b.subscribers;
      channels = insert id (record { queue = []; closed = false }) b.channels;
    }
act (unsubscribe id) b = drop_subscriber id (lookup id b.subscribers) b
act (close_channel id) b = shut id (lookup id b.closing) (lookup id b.channels) b
act (receive id) b = receive_from id (lookup id b.channels) b
act (publish event) b = record b { jobs = b.jobs ++ jobs_for event b.subscribers }
act (send n) b = send_job (pick n b.jobs) (record b { jobs = drop_job n b.jobs })

-- A panic ends the program.
unfoldable pub replay : {E : Type 0} → List (Action E) → Bus E → Bus E
replay [] b = b
replay (a ∷ later) b = let rest = replay later (act a b) in if b.panicked then b else rest
