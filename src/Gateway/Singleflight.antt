-- ===== src/Gateway/Singleflight.antt =====
-- crates/gateway/src/singleflight.rs: requests for one key wait for the first of them. A watch
-- channel is a number, and `sent` has what was sent on each. `poisoned` is the lock.
pub mod Leaders
mod Examples
use mooncache.Prelude.{
  ℕ, ◌+◌, suc, Bool, true, false, ◌&&◌, List, [], ◌∷◌, Option, none, some, leb, if◌then◌else◌, Text,
  text, lookup, insert, remove, Eq, ◌==◌, ==_iff, ◌≡◌, ◌↔◌, refl, arith, ap,
}
use mooncache.Common.{TenantId, CacheKey, tenant_id_eq, cache_key_eq}

pub data SingleflightWriteMode : Type 0 where
  writable read_only : SingleflightWriteMode

pub record SingleflightKey : Type 0 where
  pub tenant_id : TenantId
  pub cache_key : CacheKey
  pub write_mode : SingleflightWriteMode

-- The derived equality.
unfoldable pub write_mode_beq : SingleflightWriteMode → SingleflightWriteMode → Bool
write_mode_beq writable writable = true
write_mode_beq read_only read_only = true
write_mode_beq _ _ = false

unfoldable pub singleflight_key_beq : SingleflightKey → SingleflightKey → Bool
unfolding write_mode_beq
singleflight_key_beq a b =
    (a.tenant_id == b.tenant_id)
    && ((a.cache_key == b.cache_key) && write_mode_beq a.write_mode b.write_mode)

write_mode_beq_iff : (a b : SingleflightWriteMode) → (write_mode_beq a b ≡ true) ↔ (a ≡ b)
unfolding write_mode_beq
write_mode_beq_iff writable writable = (λ h. refl, λ h. refl)
write_mode_beq_iff writable read_only = (λ h. cc, λ h. cc)
write_mode_beq_iff read_only writable = (λ h. cc, λ h. cc)
write_mode_beq_iff read_only read_only = (λ h. refl, λ h. refl)

same_fields :
    (a b : SingleflightKey)
    → a.tenant_id ≡ b.tenant_id
    → a.cache_key ≡ b.cache_key
    → a.write_mode ≡ b.write_mode
    → a ≡ b
same_fields a b p q r = λ i. record { tenant_id = p i; cache_key = q i; write_mode = r i }

pub singleflight_key_beq_iff : (a b : SingleflightKey) → (singleflight_key_beq a b ≡ true) ↔ (a ≡ b)
unfolding singleflight_key_beq
singleflight_key_beq_iff a b = (
  λ h.
      same_fields a b ((==_iff a.tenant_id b.tenant_id).0 (ground arith))
        ((==_iff a.cache_key b.cache_key).0 (ground arith))
        ((write_mode_beq_iff a.write_mode b.write_mode).0 (ground arith)),
  λ h. ground (
    arith,
    (==_iff a.tenant_id b.tenant_id).1 (ap (λ (k : SingleflightKey). k.tenant_id) h),
    (==_iff a.cache_key b.cache_key).1 (ap (λ (k : SingleflightKey). k.cache_key) h),
    (write_mode_beq_iff a.write_mode b.write_mode).1 (ap (λ (k : SingleflightKey). k.write_mode) h),
  ),
)

instance abbrev pub singleflight_key_eq : Eq SingleflightKey
singleflight_key_eq = record { equals = singleflight_key_beq; decides = singleflight_key_beq_iff }

pub record SharedInFlight : Type 0 where
  pub channel : ℕ
  pub waiters : ℕ

-- `R` is what the leader shares.
pub record SingleflightGroup (R : Type 0) : Type 0 where
  pub in_flight : List (SingleflightKey × SharedInFlight)
  pub max_waiters_per_key : ℕ
  pub poisoned : Bool
  pub next_channel : ℕ
  pub sent : List (ℕ × R)

-- A leader that has not published has `completed = false`.
pub record SingleflightLeader : Type 0 where
  pub key : SingleflightKey
  pub completed : Bool

pub data SingleflightStart : Type 0 where
  leads : SingleflightLeader → SingleflightStart
  waits : (receiver : ℕ) → SingleflightStart
  over_capacity : SingleflightStart

module _ {R : Type 0} where
  unfoldable pub new_group : ℕ → SingleflightGroup R
  new_group max_waiters_per_key = record {
    in_flight = [];
    max_waiters_per_key = max_waiters_per_key;
    poisoned = false;
    next_channel = 0;
    sent = [];
  }

  -- `begin`, once the lock is taken.
  unfoldable pub begin_locked :
      SingleflightGroup R → SingleflightKey → SingleflightStart × SingleflightGroup R
  begin_locked g key = elim (lookup key g.in_flight) [
    | some flight ↦ if leb g.max_waiters_per_key flight.waiters then (over_capacity, g) else (
      waits flight.channel,
      record g {
        in_flight = insert key (record flight { waiters = flight.waiters + 1 }) g.in_flight;
      },
    )
    | none ↦ (
      leads (record { key = key; completed = false }),
      record g {
        in_flight = insert key (record { channel = g.next_channel; waiters = 0 }) g.in_flight;
        next_channel = suc g.next_channel;
      },
    )
  ]

  -- The only error, `PoisonedLock`, is `none`.
  unfoldable pub begin :
      SingleflightGroup R → SingleflightKey → Option (SingleflightStart × SingleflightGroup R)
  unfolding begin_locked
  begin g key = if g.poisoned then none else some (begin_locked g key)

  -- `Drop` of a leader.
  unfoldable pub drop_leader : SingleflightGroup R → SingleflightLeader → SingleflightGroup R
  drop_leader g leader =
      if leader.completed
      then g
      else if g.poisoned
      then g
      else record g { in_flight = remove leader.key g.in_flight }

  -- `publish`, which drops the leader at its end.
  unfoldable pub publish : SingleflightGroup R → SingleflightLeader → R → SingleflightGroup R
  unfolding drop_leader
  publish g leader result =
      if g.poisoned
      then drop_leader g leader
      else let freed = record g { in_flight = remove leader.key g.in_flight } in
        drop_leader
          (elim (lookup leader.key g.in_flight) [
            | none ↦ freed
            | some flight ↦ record freed { sent = (flight.channel, result) ∷ g.sent }
          ])
          (record leader { completed = true })
