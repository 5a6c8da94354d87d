-- ===== src/Bus/Delivery.antt =====
-- Who receives what is published (internal/alertbus/alertbus.go, Publish, Subscribe and its unsubscription).
use workbuddy.Prelude.{
  ℕ, zero, suc, ◌≡◌, refl, ap, sym, subst, ◌∙◌, inl, inr, Bool, true, false, Option, none, some,
  List, [], ◌∷◌, ◌++◌, ltb, ◌==◌, ==_iff, if◌then◌else◌, Bool-cases, length, arith, lookup, insert,
  delete, lookup-insert, lookup-delete, nat_eq,
}
use workbuddy.Bus.{
  Channel, Bus, Action, subscribe, unsubscribe, publish, send, new_bus, jobs_for, pick, drop_job,
  send_to, send_job, drop_subscriber, act, replay,
}

-- A publisher that is not interrupted: as many sends as there are subscribers.
unfoldable pub sends : {E : Type 0} → ℕ → List (Action E)
sends zero = []
sends (suc n) = send 0 ∷ sends n

abbrev pub broadcast : {E : Type 0} → E → Bus E → Bus E
broadcast event b = replay (publish event ∷ sends (length b.subscribers)) b

abbrev pub is_there : Option Bool → Bool
is_there none = false
is_there (some _) = true

-- An event goes to the end of a queue that has room, and is dropped where there is none.
abbrev pub offered : {E : Type 0} → ℕ → E → List E → List E
offered buffer event queue = if ltb (length queue) buffer then queue ++ event ∷ [] else queue

abbrev pub open_with : {E : Type 0} → List E → Channel E
open_with queue = record { queue = queue; closed = false }

abbrev pub queue_of : {E : Type 0} → Option (Channel E) → List E
queue_of none = []
queue_of (some c) = c.queue

abbrev pub AreOpen : {E : Type 0} → List (ℕ × Bool) → List (ℕ × Channel E) → Type 0
AreOpen subs channels =
    (n : ℕ)
    → is_there (lookup n subs) ≡ true
    → lookup n channels ≡ some (open_with (queue_of (lookup n channels)))

abbrev pub AreDistinct : List (ℕ × Bool) → Type 0
AreDistinct [] = Unit
AreDistinct ((n, x) ∷ subs) = (lookup n subs ≡ none) × AreDistinct subs

sent :
    {E : Type 0} (id : ℕ) (event : E) (rest : List (ℕ × E)) (b : Bus E) (q : List E) (n : ℕ)
    → b.jobs ≡ (id, event) ∷ rest
    → lookup id b.channels ≡ some (open_with q)
    → ((act (send 0) b).jobs ≡ rest)
      × ((act (send 0) b).panicked ≡ b.panicked)
      × ((act (send 0) b).buffer ≡ b.buffer)
      × (lookup n (act (send 0) b).channels
          ≡ (if id == n then some (open_with (offered b.buffer event q)) else lookup n b.channels))
unfolding act send_job send_to pick drop_job
sent id event rest b q n j e =
    rw (j, e)
      (elim (Bool-cases (ltb (length q) b.buffer)) [
        | inl room ↦
            rw room (refl, refl, refl, lookup-insert id n (open_with (q ++ event ∷ [])) b.channels)
        | inr full ↦ rw full (
          refl,
          refl,
          refl,
          (elim (Bool-cases (id == n)) [
            | inl same ↦ rw same (rw (← (==_iff id n).0 same) e)
            | inr other ↦ rw other refl
          ]),
        )
      ])

-- What the sends of one publication leave in a channel.
abbrev pub Delivered : {E : Type 0} → E → List (ℕ × Bool) → Bus E → Bus E → Type 0
Delivered event subs b b' =
    (b'.panicked ≡ false)
    × ((n : ℕ)
        → lookup n b'.channels ≡ (
            if is_there (lookup n subs)
            then some (open_with (offered b.buffer event (queue_of (lookup n b.channels))))
            else lookup n b.channels))

replay-next :
    {E : Type 0} (a : Action E) (later : List (Action E)) (b : Bus E)
    → b.panicked ≡ false
    → replay (a ∷ later) b ≡ replay later (act a b)
unfolding replay
replay-next a later b p = ap (λ (x : Bool). if x then b else replay later (act a b)) p

head_there : (id : ℕ) (x : Bool) (subs : List (ℕ × Bool)) → lookup id ((id, x) ∷ subs) ≡ some x
unfolding lookup
head_there id x subs = rw ((==_iff id id).1 refl) refl

tail_there :
    (id n : ℕ) (x : Bool) (subs : List (ℕ × Bool))
    → (id == n) ≡ false
    → lookup n ((id, x) ∷ subs) ≡ lookup n subs
unfolding lookup
tail_there id n x subs e = rw e refl

apart :
    (id n : ℕ) (subs : List (ℕ × Bool))
    → lookup id subs ≡ none
    → is_there (lookup n subs) ≡ true
    → (id == n) ≡ false
apart id n subs new h = elim (Bool-cases (id == n)) [
  | inr other ↦ other
  | inl same ↦
      let here = subst (λ (k : ℕ). lookup k subs ≡ none) ((==_iff id n).0 same) new in
      absurd (ground (arith, rw here at h))
]

-- The first send and the rest of them.
module _ {E : Type 0} (event : E) (id : ℕ) (x : Bool) (subs : List (ℕ × Bool)) (b b1 b2 : Bus E)
    (new : lookup id subs ≡ none) (size : b1.buffer ≡ b.buffer)
    (step : (n : ℕ)
      → lookup n b1.channels ≡ (
          if id == n
          then some (open_with (offered b.buffer event (queue_of (lookup id b.channels))))
          else lookup n b.channels))
    (ih : Delivered event subs b1 b2) where
  at_head :
      lookup id b2.channels
      ≡ some (open_with (offered b.buffer event (queue_of (lookup id b.channels))))
  at_head =
      let rest = ih.1 id in
      let first = step id in rw new at rest ∙ rw ((==_iff id id).1 refl) at first

  combined : Delivered event ((id, x) ∷ subs) b b2
  combined = (
    ih.0,
    λ n. elim (Bool-cases (id == n)) [
      | inl same ↦
          subst
            (λ (m : ℕ). lookup m b2.channels ≡ (
              if is_there (lookup m ((id, x) ∷ subs))
              then some (open_with (offered b.buffer event (queue_of (lookup m b.channels))))
              else lookup m b.channels))
            ((==_iff id n).0 same) (rw (head_there id x subs) at_head)
      | inr other ↦
          let first = step n in
          rw (tail_there id n x subs other, ← size, ← (rw other at first)) (ih.1 n)
    ],
  )

drained :
    {E : Type 0} (event : E) (subs : List (ℕ × Bool)) (b : Bus E)
    → b.jobs ≡ jobs_for event subs
    → b.panicked ≡ false
    → AreOpen subs b.channels
    → AreDistinct subs
    → Delivered event subs b (replay (sends (length subs)) b)
unfolding sends jobs_for
drained event [] b j p o d = (unfold replay in p, λ n. unfold replay lookup in refl)
drained event ((id, x) ∷ subs) b j p o (new, d) =
    let b1 = act (send 0) b in
    let q = queue_of (lookup id b.channels) in
    let there = o id (rw (head_there id x subs) refl) in
    let step = λ (n : ℕ). sent id event (jobs_for event subs) b q n j there in
    let open_rest : AreOpen subs b1.channels = λ n h.
      let e = apart id n subs new h in
      let first = (step n).3 in rw (rw e at first) (o n (rw (tail_there id n x subs e) h)) in
    let ih = drained event subs b1 (step id).0 ((step id).1 ∙ p) open_rest d in
    subst (Delivered event ((id, x) ∷ subs) b)
      (sym (replay-next (send 0) (sends (length subs)) b p))
      (combined event id x subs b b1 (replay (sends (length subs)) b1) new (step id).2
        (λ n. (step n).3) ih)

insert-AreDistinct :
    (id : ℕ) (subs : List (ℕ × Bool)) → AreDistinct subs → AreDistinct (insert id true subs)
unfolding insert lookup
insert-AreDistinct id [] d = (refl, tt)
insert-AreDistinct id ((n, x) ∷ subs) (new, d) = elim (Bool-cases (n == id)) [
  | inl same ↦ rw same (subst (λ (k : ℕ). lookup k subs ≡ none) ((==_iff n id).0 same) new, d)
  | inr other ↦ rw other (
    ground (arith, lookup-insert id n true subs, ==_iff id n, ==_iff n id, other, new),
    insert-AreDistinct id subs d,
  )
]

delete-AreDistinct :
    (id : ℕ) (subs : List (ℕ × Bool)) → AreDistinct subs → AreDistinct (delete id subs)
unfolding delete
delete-AreDistinct id [] d = tt
delete-AreDistinct id ((n, x) ∷ subs) (new, d) = elim (Bool-cases (n == id)) [
  | inl same ↦ rw same (delete-AreDistinct id subs d)
  | inr other ↦
      rw other (ground (arith, lookup-delete id n subs, new), delete-AreDistinct id subs d)
]

-- No publication is under way, and every subscriber has an open channel.
pub record IsReady {E : Type 0} (b : Bus E) : Type 0 where
  pub idle : b.jobs ≡ []
  pub calm : b.panicked ≡ false
  pub opened : AreOpen b.subscribers b.channels
  pub distinct : AreDistinct b.subscribers

broadcast_ready :
    {E : Type 0} (event : E) (b : Bus E)
    → IsReady b
    → Delivered event b.subscribers b (broadcast event b)
broadcast_ready event b r =
    subst (Delivered event b.subscribers b)
      (sym (replay-next (publish event) (sends (length b.subscribers)) b r.calm))
      (unfold act in
        (drained event b.subscribers (record b { jobs = b.jobs ++ jobs_for event b.subscribers })
          (rw r.idle refl) r.calm r.opened r.distinct))

pub subscribe-IsReady : {E : Type 0} (b : Bus E) → IsReady b → IsReady (act subscribe b)
unfolding act
subscribe-IsReady b r =
    let id = suc b.next_id in
    record {
      idle = r.idle;
      calm = r.calm;
      opened = λ n h. elim (Bool-cases (id == n)) [
        | inl same ↦ rw (lookup-insert id n (open_with []) b.channels, same) refl
        | inr other ↦
            let old = rw (lookup-insert id n true b.subscribers, other) at h in
            rw (lookup-insert id n (open_with []) b.channels, other) (r.opened n old)
      ];
      distinct = insert-AreDistinct id b.subscribers r.distinct;
    }

pub new_bus-IsReady : {E : Type 0} (n : ℕ) → IsReady (new_bus {E = E} n)
unfolding new_bus lookup
new_bus-IsReady n = record {
  idle = refl;
  calm = refl;
  opened = λ n h. absurd (ground (arith, h));
  distinct = tt;
}

dropped-IsReady :
    {E : Type 0} (id : ℕ) (b : Bus E)
    → IsReady b
    → IsReady
        (record b { subscribers = delete id b.subscribers; closing = insert id true b.closing })
dropped-IsReady id b r = record {
  idle = r.idle;
  calm = r.calm;
  opened = λ n h. r.opened n (ground (arith, h, lookup-delete id n b.subscribers));
  distinct = delete-AreDistinct id b.subscribers r.distinct;
}

unsubscribed :
    {E : Type 0} (event : E) (id : ℕ) (b : Bus E) (o : Option Bool)
    → IsReady b
    → lookup id b.subscribers ≡ o
    → lookup id (broadcast event (drop_subscriber id o b)).channels ≡ lookup id b.channels
unfolding drop_subscriber
unsubscribed event id b none r e = let d = (broadcast_ready event b r).1 id in rw e at d
unsubscribed event id b (some x) r e =
    let d = (broadcast_ready event _ (dropped-IsReady id b r)).1 id in
    rw (lookup-delete id id b.subscribers, (==_iff id id).1 refl) at d

-- A publication that is not interrupted, on a bus with no publication under way and an open channel for every
-- subscriber. Nothing panics; every subscriber's channel gets the event at its end, or is left as it is where it is
-- full; no other channel changes. One who subscribes first gets the event, and one who unsubscribes first does not.
pub broadcast-Delivered :
    {E : Type 0} (event : E) (id : ℕ) (b : Bus E)
    → IsReady b
    → Delivered event b.subscribers b (broadcast event b)
      × (lookup (suc b.next_id) (broadcast event (act subscribe b)).channels
          ≡ some (open_with (offered b.buffer event [])))
      × (lookup id (broadcast event (act (unsubscribe id) b)).channels ≡ lookup id b.channels)
unfolding act
broadcast-Delivered event id b r =
    let new = suc b.next_id in
    let after = (broadcast_ready event (act subscribe b) (subscribe-IsReady b r)).1 new in
    (
      broadcast_ready event b r,
      rw
          (
            lookup-insert new new true b.subscribers,
            lookup-insert new new (open_with []) b.channels,
            (==_iff new new).1 refl,
          )
          at after,
      unsubscribed event id b (lookup id b.subscribers) r refl,
    )
