-- ===== src/Gateway/Singleflight/Leaders.antt =====
-- crates/gateway/src/singleflight.rs: any sequence of calls has at most one leader a key.
use mooncache.Prelude.{
  ℕ, ◌+◌, suc, ◌≤◌, ◌<◌, ◌≡◌, refl, sym, subst, ◌∙◌, inl, inr, Bool, true, false, List, [], ◌∷◌,
  none, some, arith, leb, if◌then◌else◌, lookup, insert, remove, Unique, Entries, ◌==◌, ==_iff,
  Bool-cases, Option-cases, if_false, lookup-insert, lookup-remove, insert-Unique, remove-Unique,
  insert-Entries, remove-Entries,
}
use mooncache.Gateway.Singleflight.{
  SingleflightKey, SharedInFlight, SingleflightGroup, SingleflightStart, leads, waits,
  over_capacity, new_group, begin_locked, begin, drop_leader, publish, singleflight_key_eq,
}

-- How many of the leaders have the key.
unfoldable pub leading : SingleflightKey → List SingleflightKey → ℕ
leading key [] = 0
leading key (leader ∷ leaders) =
    let rest = leading key leaders in if leader == key then suc rest else rest

-- The leaders without the first one that has the key.
unfoldable pub without : SingleflightKey → List SingleflightKey → List SingleflightKey
without key [] = []
without key (leader ∷ leaders) = if leader == key then leaders else leader ∷ without key leaders

-- One call, with the keys of the leaders that have not published and are not dropped. A leader
-- publishes, or is dropped, once.
pub data Step {R : Type 0}
    : SingleflightGroup R × List SingleflightKey
      → SingleflightGroup R × List SingleflightKey
      → Type 0 where
  starts :
      (g g' : SingleflightGroup R) (leaders : List SingleflightKey) (key : SingleflightKey)
      → begin g key ≡ some (leads (record { key = key; completed = false }), g')
      → Step (g, leaders) (g', key ∷ leaders)
  joins :
      (g g' : SingleflightGroup R) (leaders : List SingleflightKey) (key : SingleflightKey)
      (receiver : ℕ)
      → begin g key ≡ some (waits receiver, g')
      → Step (g, leaders) (g', leaders)
  overflows :
      (g g' : SingleflightGroup R) (leaders : List SingleflightKey) (key : SingleflightKey)
      → begin g key ≡ some (over_capacity, g')
      → Step (g, leaders) (g', leaders)
  publishes :
      (g : SingleflightGroup R) (leaders : List SingleflightKey) (key : SingleflightKey)
      (result : R)
      → 0 < leading key leaders
      → Step
          (g, leaders)
          (publish g (record { key = key; completed = false }) result, without key leaders)
  drops :
      (g : SingleflightGroup R) (leaders : List SingleflightKey) (key : SingleflightKey)
      → 0 < leading key leaders
      → Step
          (g, leaders)
          (drop_leader g (record { key = key; completed = false }), without key leaders)

-- What the calls of a new group lead to.
pub data Reachable {R : Type 0} (max_waiters : ℕ)
    : SingleflightGroup R × List SingleflightKey → Type 0 where
  new : Reachable max_waiters (new_group max_waiters, [])
  after :
      (x y : SingleflightGroup R × List SingleflightKey)
      → Reachable max_waiters x
      → Step x y
      → Reachable max_waiters y

-- Whether a request for the key is in flight, as a number.
unfoldable pub flying : SingleflightKey → List (SingleflightKey × SharedInFlight) → ℕ
flying key m = elim (lookup key m) [ none ↦ 0 | some _ ↦ 1 ]

abbrev pub WithinMax : ℕ → SingleflightKey → SharedInFlight → Type 0
WithinMax max_waiters key flight = flight.waiters ≤ max_waiters

-- The keys in flight are those of the leaders, one each, and no key has too many waiters.
pub record IsLed {R : Type 0} (max_waiters : ℕ) (g : SingleflightGroup R)
    (leaders : List SingleflightKey) : Type 0 where
  pub sound : g.poisoned ≡ false
  pub same_max : g.max_waiters_per_key ≡ max_waiters
  pub keyed_once : Unique g.in_flight
  pub led : (key : SingleflightKey) → leading key leaders ≡ flying key g.in_flight
  pub bounded : Entries (WithinMax max_waiters) g.in_flight

flying-insert :
    (key k : SingleflightKey) (flight : SharedInFlight)
    (m : List (SingleflightKey × SharedInFlight))
    → flying k (insert key flight m) ≡ (if key == k then 1 else flying k m)
unfolding flying
flying-insert key k flight m = ground (arith, lookup-insert key k flight m)

flying-remove :
    (key k : SingleflightKey) (m : List (SingleflightKey × SharedInFlight))
    → Unique m
    → flying k (remove key m) ≡ (if key == k then 0 else flying k m)
unfolding flying
flying-remove key k m u = ground (arith, lookup-remove key k m u)

flying-none :
    (key k : SingleflightKey) (m : List (SingleflightKey × SharedInFlight))
    → (key == k) ≡ true
    → lookup key m ≡ none
    → flying k m ≡ 0
unfolding flying
flying-none key k m hit free =
    let missing = subst (λ j. lookup j m ≡ none) ((==_iff key k).0 hit) free in rw (flying, missing)

flying-some :
    (key k : SingleflightKey) (flight : SharedInFlight)
    (m : List (SingleflightKey × SharedInFlight))
    → (key == k) ≡ true
    → lookup key m ≡ some flight
    → flying k m ≡ 1
unfolding flying
flying-some key k flight m hit found =
    let there = subst (λ j. lookup j m ≡ some flight) ((==_iff key k).0 hit) found in
    rw (flying, there)

flying_le_one : (k : SingleflightKey) (m : List (SingleflightKey × SharedInFlight)) → flying k m ≤ 1
unfolding flying
flying_le_one k m = elim (Option-cases (lookup k m)) [
  | inl missing ↦ rw (flying, missing) (omega arith)
  | inr (flight, found) ↦ rw (flying, found) (omega arith)
]

leading-without :
    (key k : SingleflightKey) (leaders : List SingleflightKey)
    → 0 < leading key leaders
    → (if key == k then suc (leading k (without key leaders)) else leading k (without key leaders))
      ≡ leading k leaders
unfolding leading without
leading-without key k [] h = ground arith
leading-without key k (leader ∷ leaders) h =
    ground (arith, leading-without key k leaders, ==_iff key k, ==_iff leader key, ==_iff leader k)

module _ {R : Type 0} (max_waiters : ℕ) (g : SingleflightGroup R)
    (leaders : List SingleflightKey) where
  -- A new flight with its leader.
  started-IsLed :
      (key : SingleflightKey) (channel next : ℕ)
      → lookup key g.in_flight ≡ none
      → IsLed max_waiters g leaders
      → IsLed max_waiters
          (record g {
            in_flight = insert key (record { channel = channel; waiters = 0 }) g.in_flight;
            next_channel = next;
          })
          (key ∷ leaders)
  unfolding leading
  started-IsLed key channel next free i =
      let flight : SharedInFlight = record { channel = channel; waiters = 0 } in
      record {
        sound = i.sound;
        same_max = i.same_max;
        keyed_once = insert-Unique key flight g.in_flight i.keyed_once;
        led = λ k. elim (Bool-cases (key == k)) [
          | inl hit ↦ ground (
            arith,
            hit,
            flying-insert key k flight g.in_flight,
            i.led k,
            flying-none key k g.in_flight hit free,
          )
          | inr miss ↦ ground (arith, miss, flying-insert key k flight g.in_flight, i.led k)
        ];
        bounded =
            insert-Entries (WithinMax max_waiters) key flight g.in_flight i.bounded (omega arith);
      }

  -- One waiter more.
  joined-IsLed :
      (key : SingleflightKey) (flight : SharedInFlight)
      → lookup key g.in_flight ≡ some flight
      → flight.waiters < max_waiters
      → IsLed max_waiters g leaders
      → IsLed max_waiters
          (record g {
            in_flight = insert key (record flight { waiters = flight.waiters + 1 }) g.in_flight;
          })
          leaders
  joined-IsLed key flight found room i =
      let more : SharedInFlight = record flight { waiters = flight.waiters + 1 } in
      record {
        sound = i.sound;
        same_max = i.same_max;
        keyed_once = insert-Unique key more g.in_flight i.keyed_once;
        led = λ k. elim (Bool-cases (key == k)) [
          | inl hit ↦ ground (
            arith,
            hit,
            flying-insert key k more g.in_flight,
            i.led k,
            flying-some key k flight g.in_flight hit found,
          )
          | inr miss ↦ ground (arith, miss, flying-insert key k more g.in_flight, i.led k)
        ];
        bounded =
            insert-Entries (WithinMax max_waiters) key more g.in_flight i.bounded
              (omega (arith, room));
      }

  -- A leader less, and its flight.
  freed-IsLed :
      (key : SingleflightKey) (sent : List (ℕ × R))
      → 0 < leading key leaders
      → IsLed max_waiters g leaders
      → IsLed max_waiters
          (record g { in_flight = remove key g.in_flight; sent = sent })
          (without key leaders)
  freed-IsLed key sent live i = record {
    sound = i.sound;
    same_max = i.same_max;
    keyed_once = remove-Unique key g.in_flight i.keyed_once;
    led = λ k. elim (Bool-cases (key == k)) [
      | inl hit ↦ ground (
        arith,
        hit,
        leading-without key k leaders live,
        flying-remove key k g.in_flight i.keyed_once,
        i.led k,
        flying_le_one k g.in_flight,
      )
      | inr miss ↦ ground (
        arith,
        miss,
        leading-without key k leaders live,
        flying-remove key k g.in_flight i.keyed_once,
        i.led k,
      )
    ];
    bounded = remove-Entries (WithinMax max_waiters) key g.in_flight i.bounded;
  }

module _ {R : Type 0} (max_waiters : ℕ) (g g' : SingleflightGroup R)
    (leaders : List SingleflightKey) (key : SingleflightKey) where
  -- What a call of `begin` did.
  begin_cases :
      (P : SingleflightStart × SingleflightGroup R → Type 0) (start : SingleflightStart)
      → g.poisoned ≡ false
      → begin g key ≡ some (start, g')
      → (lookup key g.in_flight ≡ none
          → P (
            leads (record { key = key; completed = false }),
            record g {
              in_flight = insert key (record { channel = g.next_channel; waiters = 0 }) g.in_flight;
              next_channel = suc g.next_channel;
            },
          ))
      → ((flight : SharedInFlight)
          → lookup key g.in_flight ≡ some flight
          → flight.waiters < g.max_waiters_per_key
          → P (
            waits flight.channel,
            record g {
              in_flight = insert key (record flight { waiters = flight.waiters + 1 }) g.in_flight;
            },
          ))
      → P (over_capacity, g)
      → P (start, g')
  unfolding begin begin_locked
  begin_cases P start sound h fresh joined full =
      let e : begin_locked g key ≡ (start, g') =
        mathlib.Core.Option.some-injective (begin_locked g key) (start, g')
          (sym (if_false g.poisoned _ _ sound) ∙ h) in
      subst P e (elim (Option-cases (lookup key g.in_flight)) [
        | inl free ↦ rw (begin_locked, free) (fresh free)
        | inr (flight, found) ↦ elim (Bool-cases (leb g.max_waiters_per_key flight.waiters)) [
          | inl over ↦ rw (begin_locked, found, over) full
          | inr room ↦ rw (begin_locked, found, room) (joined flight found (ground (arith, room)))
        ]
      ])

-- The leaders after a call of `begin`.
abbrev leaders_after :
    SingleflightStart → SingleflightKey → List SingleflightKey → List SingleflightKey
leaders_after (leads leader) key leaders = key ∷ leaders
leaders_after (waits receiver) key leaders = leaders
leaders_after over_capacity key leaders = leaders

begin-IsLed :
    {R : Type 0} (max_waiters : ℕ) (g g' : SingleflightGroup R) (leaders : List SingleflightKey)
    (key : SingleflightKey) (start : SingleflightStart)
    → IsLed max_waiters g leaders
    → begin g key ≡ some (start, g')
    → IsLed max_waiters g' (leaders_after start key leaders)
begin-IsLed {R} max_waiters g g' leaders key start i h =
    begin_cases max_waiters g g' leaders key
      (λ (r : SingleflightStart × SingleflightGroup R).
        IsLed max_waiters r.1 (leaders_after r.0 key leaders))
      start i.sound h
      (λ free. started-IsLed max_waiters g leaders key g.next_channel (suc g.next_channel) free i)
      (λ flight found room.
        joined-IsLed max_waiters g leaders key flight found
          (subst (λ n. flight.waiters < n) i.same_max room) i)
      i

-- A test that fails.
otherwise :
    {A : Type 0} (P : A → Type 0) (b : Bool) (x y : A) → b ≡ false → P y → P (if b then x else y)
otherwise P true x y h p = cc
otherwise P false x y h p = p

publish-IsLed :
    {R : Type 0} (max_waiters : ℕ) (g : SingleflightGroup R) (leaders : List SingleflightKey)
    (key : SingleflightKey) (result : R)
    → IsLed max_waiters g leaders
    → 0 < leading key leaders
    → IsLed max_waiters
        (publish g (record { key = key; completed = false }) result)
        (without key leaders)
unfolding publish drop_leader
publish-IsLed {R} max_waiters g leaders key result i live =
    otherwise (λ (g' : SingleflightGroup R). IsLed max_waiters g' (without key leaders)) g.poisoned
      _ _ i.sound
      (elim (Option-cases (lookup key g.in_flight)) [
        | inl free ↦ rw (free, drop_leader) (freed-IsLed max_waiters g leaders key g.sent live i)
        | inr (flight, found) ↦
            rw (found, drop_leader)
              (freed-IsLed max_waiters g leaders key ((flight.channel, result) ∷ g.sent) live i)
      ])

drop_leader-IsLed :
    {R : Type 0} (max_waiters : ℕ) (g : SingleflightGroup R) (leaders : List SingleflightKey)
    (key : SingleflightKey)
    → IsLed max_waiters g leaders
    → 0 < leading key leaders
    → IsLed max_waiters
        (drop_leader g (record { key = key; completed = false }))
        (without key leaders)
unfolding drop_leader
drop_leader-IsLed {R} max_waiters g leaders key i live =
    otherwise (λ (g' : SingleflightGroup R). IsLed max_waiters g' (without key leaders)) g.poisoned
      _ _ i.sound (freed-IsLed max_waiters g leaders key g.sent live i)

Step-IsLed :
    {R : Type 0} (max_waiters : ℕ) (x y : SingleflightGroup R × List SingleflightKey)
    → Step x y
    → IsLed max_waiters x.0 x.1
    → IsLed max_waiters y.0 y.1
Step-IsLed max_waiters _ _ (starts g g' leaders key h) i =
    begin-IsLed max_waiters g g' leaders key (leads (record { key = key; completed = false })) i h
Step-IsLed max_waiters _ _ (joins g g' leaders key receiver h) i =
    begin-IsLed max_waiters g g' leaders key (waits receiver) i h
Step-IsLed max_waiters _ _ (overflows g g' leaders key h) i =
    begin-IsLed max_waiters g g' leaders key over_capacity i h
Step-IsLed max_waiters _ _ (publishes g leaders key result live) i =
    publish-IsLed max_waiters g leaders key result i live
Step-IsLed max_waiters _ _ (drops g leaders key live) i =
    drop_leader-IsLed max_waiters g leaders key i live

reached-IsLed :
    {R : Type 0} (max_waiters : ℕ) (x : SingleflightGroup R × List SingleflightKey)
    → Reachable max_waiters x
    → IsLed max_waiters x.0 x.1
unfolding new_group leading flying lookup
reached-IsLed max_waiters _ new = record {
  sound = refl;
  same_max = refl;
  keyed_once = tt;
  led = λ key. refl;
  bounded = tt;
}
reached-IsLed max_waiters _ (after x y r step) =
    Step-IsLed max_waiters x y step (reached-IsLed max_waiters x r)

-- After any sequence of calls of a new group: the keys in flight are those of the leaders that have
-- neither published nor been dropped, no key has two of them, and no key has more waiters than the
-- greatest number.
pub Reachable-IsLed :
    {R : Type 0} (max_waiters : ℕ) (x : SingleflightGroup R × List SingleflightKey)
    → Reachable max_waiters x
    → IsLed max_waiters x.0 x.1 × ((key : SingleflightKey) → leading key x.1 ≤ 1)
Reachable-IsLed max_waiters x r =
    let i = reached-IsLed max_waiters x r in
    (i, λ key. subst (λ n. n ≤ 1) (sym (i.led key)) (flying_le_one key x.0.in_flight))
