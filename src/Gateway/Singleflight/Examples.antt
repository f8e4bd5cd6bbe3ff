-- ===== src/Gateway/Singleflight/Examples.antt =====
-- Calls of crates/gateway/src/singleflight.rs, and the theorem at a concrete sequence of them.
use mooncache.Prelude.{ℕ, ◌≤◌, ◌≡◌, refl, false, [], ◌∷◌, some, lookup, insert, remove, text_beq}
use mooncache.Common.{tenant_id_beq, cache_key_beq}
use mooncache.Gateway.Singleflight.{
  SingleflightKey, SingleflightGroup, leads, waits, over_capacity, writable, new_group, begin,
  publish, singleflight_key_beq,
}
use mooncache.Gateway.Singleflight.Leaders.{
  starts, joins, overflows, Reachable, new, after, IsLed, leading, Reachable-IsLed,
}

abbrev key : SingleflightKey
key = record {
  tenant_id = record { value = b'a' ∷ [] };
  cache_key = record { value = b'1' ∷ [] };
  write_mode = writable;
}

-- A leader starts, one request waits, and one finds no room.
abbrev empty : SingleflightGroup ℕ
empty = new_group 1

abbrev flight : ℕ → SingleflightGroup ℕ
flight waiters = record {
  in_flight = (key, record { channel = 0; waiters = waiters }) ∷ [];
  max_waiters_per_key = 1;
  poisoned = false;
  next_channel = 1;
  sent = [];
}

first_leads : begin empty key ≡ some (leads (record { key = key; completed = false }), flight 0)
unfolding begin new_group lookup insert
first_leads = refl

second_waits : begin (flight 0) key ≡ some (waits 0, flight 1)
unfolding begin lookup insert singleflight_key_beq tenant_id_beq cache_key_beq text_beq
second_waits = refl

third_overflows : begin (flight 1) key ≡ some (over_capacity, flight 1)
unfolding begin lookup insert singleflight_key_beq tenant_id_beq cache_key_beq text_beq
third_overflows = refl

-- Publishing ends the flight and sends the result on its channel.
published :
    publish (flight 1) (record { key = key; completed = false }) 7
    ≡ record (flight 1) { in_flight = []; sent = (0, 7) ∷ [] }
unfolding publish lookup remove singleflight_key_beq tenant_id_beq cache_key_beq text_beq
published = refl

three_calls : Reachable 1 (flight 1, key ∷ [])
unfolding new_group
three_calls =
    after (flight 1, key ∷ []) (flight 1, key ∷ [])
      (after (flight 0, key ∷ []) (flight 1, key ∷ [])
        (after (empty, []) (flight 0, key ∷ []) new (starts empty (flight 0) [] key first_leads))
        (joins (flight 0) (flight 1) (key ∷ []) key 0 second_waits))
      (overflows (flight 1) (flight 1) (key ∷ []) key third_overflows)

Reachable-IsLed_example :
    IsLed 1 (flight 1) (key ∷ []) × ((k : SingleflightKey) → leading k (key ∷ []) ≤ 1)
Reachable-IsLed_example = Reachable-IsLed 1 (flight 1, key ∷ []) three_calls
