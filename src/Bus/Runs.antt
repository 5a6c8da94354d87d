-- ===== src/Bus/Runs.antt =====
-- What every run of a bus keeps to (internal/alertbus/alertbus.go, internal/tasknotify/hub.go).
use workbuddy.Prelude.{
  ℕ, suc, ◌≤◌, ◌≡◌, refl, subst, ◌∙◌, inl, inr, Bool, true, false, Option, none, some, List, [],
  ◌∷◌, ◌++◌, ltb, ◌==◌, if◌then◌else◌, if_ind, any, Bool-cases, length, length-append, arith,
  lookup, insert, lookup-insert, nat_eq,
}
use workbuddy.Bus.{
  Channel, Bus, Action, subscribe, unsubscribe, close_channel, receive, publish, send, new_bus,
  pick, drop_job, send_to, send_job, tail_of, receive_from, drop_subscriber, shut, act, replay,
}

-- All channels satisfy `P`.
abbrev Every : {E : Type 0} → (Channel E → Type 0) → List (ℕ × Channel E) → Type 0
Every P channels = (id : ℕ) (c : Channel _) → lookup id channels ≡ some c → P c

-- No queue is longer than the buffer.
abbrev IsBounded : {E : Type 0} → Bus E → Type 0
IsBounded b = (id : ℕ) (c : Channel _) → lookup id b.channels ≡ some c → length c.queue ≤ b.buffer

some_inj : {E : Type 0} (c d : Channel E) → some c ≡ some d → c ≡ d
some_inj c d h = cc

insert-Every :
    {E : Type 0} (P : Channel E → Type 0) (id : ℕ) (c : Channel E) (channels : List (ℕ × Channel E))
    → P c
    → Every P channels
    → Every P (insert id c channels)
insert-Every P id c channels h k n d e = elim (Bool-cases (id == n)) [
  | inl q ↦ subst P (some_inj c d (ground (arith, lookup-insert id n c channels, e, q))) h
  | inr q ↦ k n d (ground (arith, lookup-insert id n c channels, e, q))
]

tail_of-length : {E : Type 0} (es : List E) → length (tail_of es) ≤ length es
unfolding tail_of
tail_of-length [] = omega arith
tail_of-length (e ∷ es) = omega arith

send_to-IsBounded :
    {E : Type 0} (id : ℕ) (event : E) (o : Option (Channel E)) (b : Bus E)
    → lookup id b.channels ≡ o
    → IsBounded b
    → IsBounded (send_to id event o b)
unfolding send_to
send_to-IsBounded id event none b e h = h
send_to-IsBounded id event (some c) b e h =
    if_ind IsBounded c.closed h (elim (Bool-cases (ltb (length c.queue) b.buffer)) [
      | inl room ↦ rw room (
          insert-Every (λ d. length d.queue ≤ b.buffer) id
            (record c { queue = c.queue ++ event ∷ [] }) b.channels
            (ground (arith, length-append c.queue (event ∷ []), room)) h)
      | inr full ↦ rw full h
    ])

send_job-IsBounded :
    {E : Type 0} (o : Option (ℕ × E)) (b : Bus E) → IsBounded b → IsBounded (send_job o b)
unfolding send_job
send_job-IsBounded none b h = h
send_job-IsBounded (some (id, event)) b h =
    send_to-IsBounded id event (lookup id b.channels) b refl h

receive_from-IsBounded :
    {E : Type 0} (id : ℕ) (o : Option (Channel E)) (b : Bus E)
    → lookup id b.channels ≡ o
    → IsBounded b
    → IsBounded (receive_from id o b)
unfolding receive_from
receive_from-IsBounded id none b e h = h
receive_from-IsBounded id (some c) b e h =
    insert-Every (λ d. length d.queue ≤ b.buffer) id (record c { queue = tail_of c.queue })
      b.channels (ground (arith, tail_of-length c.queue, h id c e)) h

drop_subscriber-IsBounded :
    {E : Type 0} (id : ℕ) (o : Option Bool) (b : Bus E)
    → IsBounded b
    → IsBounded (drop_subscriber id o b)
unfolding drop_subscriber
drop_subscriber-IsBounded id none b h = h
drop_subscriber-IsBounded id (some x) b h = h

shut-IsBounded :
    {E : Type 0} (id : ℕ) (o : Option Bool) (c : Option (Channel E)) (b : Bus E)
    → lookup id b.channels ≡ c
    → IsBounded b
    → IsBounded (shut id o c b)
unfolding shut
shut-IsBounded id none none b e h = h
shut-IsBounded id none (some c) b e h = h
shut-IsBounded id (some x) none b e h = h
shut-IsBounded id (some x) (some c) b e h =
    insert-Every (λ d. length d.queue ≤ b.buffer) id (record c { closed = true }) b.channels
      (h id c e) h

act-IsBounded : {E : Type 0} (a : Action E) (b : Bus E) → IsBounded b → IsBounded (act a b)
unfolding act
act-IsBounded subscribe b h =
    insert-Every (λ d. length d.queue ≤ b.buffer) (suc b.next_id)
      (record { queue = []; closed = false }) b.channels (omega arith) h
act-IsBounded (unsubscribe id) b h = drop_subscriber-IsBounded id (lookup id b.subscribers) b h
act-IsBounded (close_channel id) b h =
    shut-IsBounded id (lookup id b.closing) (lookup id b.channels) b refl h
act-IsBounded (receive id) b h = receive_from-IsBounded id (lookup id b.channels) b refl h
act-IsBounded (publish event) b h = h
act-IsBounded (send n) b h =
    send_job-IsBounded (pick n b.jobs) (record b { jobs = drop_job n b.jobs }) h

bounded :
    {E : Type 0} (actions : List (Action E)) (b : Bus E)
    → IsBounded b
    → IsBounded (replay actions b)
unfolding replay
bounded [] b h = h
bounded (a ∷ later) b h =
    if_ind IsBounded b.panicked h (bounded later (act a b) (act-IsBounded a b h))

abbrev pub is_close : {E : Type 0} → Action E → Bool
is_close (close_channel id) = true
is_close _ = false

-- Every channel is open, and nothing has panicked.
abbrev IsOpen : {E : Type 0} → Bus E → Type 0
IsOpen b = Every (λ c. c.closed ≡ false) b.channels × (b.panicked ≡ false)

when_false :
    {A : Type 0} (P : A → Type 0) (b : Bool) (x y : A) → b ≡ false → P y → P (if b then x else y)
when_false P true x y e h = absurd (ground (arith, e))
when_false P false x y e h = h

send_to-IsOpen :
    {E : Type 0} (id : ℕ) (event : E) (o : Option (Channel E)) (b : Bus E)
    → lookup id b.channels ≡ o
    → IsOpen b
    → IsOpen (send_to id event o b)
unfolding send_to
send_to-IsOpen id event none b e h = h
send_to-IsOpen id event (some c) b e (h, p) =
    let opened = h id c e in
    when_false IsOpen c.closed (record b { panicked = true }) _ opened
      (if_ind IsOpen (ltb (length c.queue) b.buffer)
        (
          insert-Every (λ d. d.closed ≡ false) id (record c { queue = c.queue ++ event ∷ [] })
              b.channels opened h,
          p,
        )
        (h, p))

send_job-IsOpen : {E : Type 0} (o : Option (ℕ × E)) (b : Bus E) → IsOpen b → IsOpen (send_job o b)
unfolding send_job
send_job-IsOpen none b h = h
send_job-IsOpen (some (id, event)) b h = send_to-IsOpen id event (lookup id b.channels) b refl h

receive_from-IsOpen :
    {E : Type 0} (id : ℕ) (o : Option (Channel E)) (b : Bus E)
    → lookup id b.channels ≡ o
    → IsOpen b
    → IsOpen (receive_from id o b)
unfolding receive_from
receive_from-IsOpen id none b e h = h
receive_from-IsOpen id (some c) b e (h, p) = (
  insert-Every (λ d. d.closed ≡ false) id (record c { queue = tail_of c.queue }) b.channels
      (h id c e) h,
  p,
)

drop_subscriber-IsOpen :
    {E : Type 0} (id : ℕ) (o : Option Bool) (b : Bus E) → IsOpen b → IsOpen (drop_subscriber id o b)
unfolding drop_subscriber
drop_subscriber-IsOpen id none b h = h
drop_subscriber-IsOpen id (some x) b h = h

act-IsOpen :
    {E : Type 0} (a : Action E) (b : Bus E) → is_close a ≡ false → IsOpen b → IsOpen (act a b)
unfolding act
act-IsOpen subscribe b q (h, p) = (
  insert-Every (λ d. d.closed ≡ false) (suc b.next_id) (record { queue = []; closed = false })
      b.channels refl h,
  p,
)
act-IsOpen (unsubscribe id) b q h = drop_subscriber-IsOpen id (lookup id b.subscribers) b h
act-IsOpen (close_channel id) b q h = absurd (ground (arith, q))
act-IsOpen (receive id) b q h = receive_from-IsOpen id (lookup id b.channels) b refl h
act-IsOpen (publish event) b q h = h
act-IsOpen (send n) b q h =
    send_job-IsOpen (pick n b.jobs) (record b { jobs = drop_job n b.jobs }) h

replay-IsOpen :
    {E : Type 0} (actions : List (Action E)) (b : Bus E)
    → any is_close actions ≡ false
    → IsOpen b
    → IsOpen (replay actions b)
unfolding replay any
replay-IsOpen [] b q h = h
replay-IsOpen (a ∷ later) b q h =
    if_ind IsOpen b.panicked h
      (replay-IsOpen later (act a b) (ground (arith, q)) (act-IsOpen a b (ground (arith, q)) h))

act-buffer : {E : Type 0} (a : Action E) (b : Bus E) → (act a b).buffer ≡ b.buffer
unfolding act send_job send_to receive_from drop_subscriber shut
act-buffer subscribe b = refl
act-buffer (unsubscribe id) b = ground arith
act-buffer (close_channel id) b = ground arith
act-buffer (receive id) b = ground arith
act-buffer (publish event) b = refl
act-buffer (send n) b = ground arith

replay-buffer :
    {E : Type 0} (actions : List (Action E)) (b : Bus E) → (replay actions b).buffer ≡ b.buffer
unfolding replay
replay-buffer [] b = refl
replay-buffer (a ∷ later) b =
    if_ind (λ (t : Bus _). t.buffer ≡ b.buffer) b.panicked refl
      (replay-buffer later (act a b) ∙ act-buffer a b)

no-channels : {E : Type 0} (n : ℕ) (P : Channel E → Type 0) → Every P (new_bus {E = E} n).channels
unfolding new_bus lookup
no-channels n P id c e = absurd (ground (arith, e))

abbrev pub capacity : ℕ → ℕ
capacity n = if n == 0 then 64 else n

-- No channel holds more events than the bound.
abbrev pub IsWithin : {E : Type 0} → ℕ → Bus E → Type 0
IsWithin bound b = (id : ℕ) (c : Channel _) → lookup id b.channels ≡ some c → length c.queue ≤ bound

new_bus-buffer : (E : Type 0) (n : ℕ) → (new_bus {E = E} n).buffer ≡ capacity n
unfolding new_bus
new_bus-buffer E n = refl

-- However the steps of publishers, subscribers and readers are interleaved, on a bus made for buffers of `n`: no
-- channel holds more than `n` events (64 for 0); and nothing panics as long as no channel has been closed by an
-- unsubscription.
pub replay-IsWithin :
    {E : Type 0} (n : ℕ) (actions : List (Action E))
    → IsWithin (capacity n) (replay actions (new_bus n))
      × (any is_close actions ≡ false → (replay actions (new_bus n)).panicked ≡ false)
replay-IsWithin n actions = (
  λ id c e.
      subst (λ k. length c.queue ≤ k) (replay-buffer actions (new_bus n) ∙ new_bus-buffer _ n)
        (bounded actions (new_bus n) (no-channels n _) id c e),
  λ q. (replay-IsOpen actions (new_bus n) q (no-channels n _, (unfold new_bus in refl))).1,
)
