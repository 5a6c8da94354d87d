-- ===== src/Bus/Examples.antt =====
-- A bus at concrete runs.
use workbuddy.Prelude.{ℕ, suc, some, ◌≡◌, refl, true, List, [], ◌∷◌, lookup, insert, delete, nat_eq}
use workbuddy.Bus.{
  Bus, Action, subscribe, unsubscribe, close_channel, publish, send, new_bus, jobs_for, pick,
  drop_job, send_to, send_job, drop_subscriber, shut, act, replay,
}
use workbuddy.Bus.Delivery.{
  Delivered, broadcast, offered, open_with, new_bus-IsReady, subscribe-IsReady, broadcast-Delivered,
}

-- An unsubscription between the moment when a publisher takes the channels and its send.
abbrev overlapping : List (Action ℕ)
overlapping = subscribe ∷ publish 5 ∷ unsubscribe 1 ∷ close_channel 1 ∷ send 0 ∷ []

overlapping_panics : (replay overlapping (new_bus 64)).panicked ≡ true
unfolding replay act new_bus jobs_for pick drop_job send_to send_job drop_subscriber shut lookup
    insert delete
overlapping_panics = refl

-- A bus with one subscriber.
abbrev bus : Bus ℕ
bus = act subscribe (new_bus 1)

broadcast-Delivered_example :
    Delivered 5 bus.subscribers bus (broadcast 5 bus)
    × (lookup (suc bus.next_id) (broadcast 5 (act subscribe bus)).channels
        ≡ some (open_with (offered bus.buffer 5 [])))
    × (lookup 1 (broadcast 5 (act (unsubscribe 1) bus)).channels ≡ lookup 1 bus.channels)
broadcast-Delivered_example =
    broadcast-Delivered 5 1 bus (subscribe-IsReady (new_bus 1) (new_bus-IsReady 1))
