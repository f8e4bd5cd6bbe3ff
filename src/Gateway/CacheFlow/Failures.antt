-- ===== src/Gateway/CacheFlow/Failures.antt =====
-- crates/gateway/src/cache_flow.rs over the local clients: what a write of the cache that fails
-- leaves.
use mooncache.Prelude.{
  ℕ, insert, ◌≡◌, refl, sym, ap, subst, ◌∙◌, ◌⊎◌, inl, inr, false, List, [], ◌∷◌, arith, Bool-cases,
}
use mooncache.Common
use mooncache.Common.{CacheError, CacheResult, CacheResult-cases, TenantId, CacheKey, object_key_eq}
use mooncache.Master.Object.{ReplicaDescriptor, revoked}
use mooncache.Master.State.{
  MasterState, put_start, put_end, put_revoke, get_replica_list, with_status, reserved_object,
}
use mooncache.Master.State.Writes.{put_start-put_end-read, put_start-atomic}
use mooncache.Master.State.Replicas.{put_start-put_revoke-read, put_start-put_revoke}
use mooncache.Store.Memory.{Bytes}
use mooncache.Gateway.Errors.{
  GatewayError, GatewayResult, done, raised, Flow, continue, GatewayResult-cases,
}
use mooncache.Gateway.Clients.Local.{
  LocalCluster, on_master, from_cache, local_write_chunk, local_master_client, local_store_client,
}
use mooncache.Gateway.CacheFlow.{Environment, GatewayState, CacheWriteStatus, committed, on_world}
use mooncache.Gateway.CacheFlow.Cached.{
  handle_of, write_reserved_replicas, or_revoke, revoke_reservation_after_write_failure,
  byte_length, write_cached_bytes,
}
use mooncache.Gateway.CacheFlow.Local.{
  locally, on_master_sound, on_master-poisoned, on_master-done, local_write_chunk-world,
}

-- A step, as it ends or goes on.
continue_cases :
    {S A B : Type 0} (P : GatewayResult B × S → Type 0) (r : GatewayResult A × S) (f : A → Flow S B)
    → ((e : GatewayError) → r.0 ≡ raised e → P (raised e, r.1))
    → ((a : A) → r.0 ≡ done a → P (f a r.1))
    → P (continue r f)
unfolding continue
continue_cases P (done a, s) f ends goes = goes a refl
continue_cases P (raised e, s) f ends goes = ends e refl

done_raised {ℓ} :
    {A : Type ℓ} (r : GatewayResult A) (a : A) (e : GatewayError) → r ≡ done a → ¬ (r ≡ raised e)
done_raised r a e h k = ground (arith, h, k)

-- A master that refuses the start of a write is as it was.
start-refused :
    (tenant : TenantId) (key : CacheKey) (len : ℕ) (w : LocalCluster) (e : GatewayError)
    → (on_master (λ m. put_start m tenant key len 1) w).0 ≡ raised e
    → (on_master (λ m. put_start m tenant key len 1) w).1.master ≡ w.master
unfolding from_cache
start-refused tenant key len w e h =
    let start : MasterState → CacheResult (List ReplicaDescriptor) × MasterState =
      λ m. put_start m tenant key len 1 in
    elim (Bool-cases w.master_poisoned) [
      | inl poisoned ↦
          ap (λ (r : GatewayResult (List ReplicaDescriptor) × LocalCluster). r.1.master)
            (on_master-poisoned start w poisoned)
      | inr sound ↦
          let same = on_master_sound start w sound in
          ap (λ (r : GatewayResult (List ReplicaDescriptor) × LocalCluster). r.1.master) same
          ∙ elim (CacheResult-cases (start w.master).0) [
            | inr (cause, refused) ↦ put_start-atomic w.master tenant key len 1 cause refused
            | inl (replicas, started) ↦ absurd (
                done_raised (from_cache (start w.master).0) replicas e
                  (ap (λ (r : CacheResult (List ReplicaDescriptor)). from_cache r) started)
                  (sym
                      (ap (λ (r : GatewayResult (List ReplicaDescriptor) × LocalCluster). r.0) same)
                    ∙ h))
          ]
    ]

module _ {Number : Type 0} (env : Environment LocalCluster Number) (sha256 : Bytes → Bytes)
    (now_ms : ℕ) (tenant : TenantId) (key : CacheKey) where
  -- The writes of the store leave the master and its lock.
  abbrev LeavesMaster :
      {A : Type 0}
      → GatewayState LocalCluster Number
      → GatewayResult A × GatewayState LocalCluster Number
      → Type 0
  LeavesMaster s r =
      (r.1.world.master ≡ s.world.master) × (r.1.world.master_poisoned ≡ s.world.master_poisoned)

  write_reserved_replicas-LeavesMaster :
      (replicas : List ReplicaDescriptor) (bytes : Bytes) (s : GatewayState LocalCluster Number)
      → LeavesMaster s
          (write_reserved_replicas (locally now_ms sha256 env) tenant key replicas bytes s)
  unfolding write_reserved_replicas on_world local_store_client
  write_reserved_replicas-LeavesMaster [] bytes s = (refl, refl)
  write_reserved_replicas-LeavesMaster (replica ∷ replicas) bytes s =
      continue_cases (LeavesMaster s) (handle_of replica, s) _ (λ e h. (refl, refl))
        (λ handle h.
          let wrote = local_write_chunk-world sha256 handle s.world bytes in
          let s1 : GatewayState LocalCluster Number = record s {
            world = (local_write_chunk sha256 handle bytes s.world).1;
          } in
          continue_cases (LeavesMaster s) ((local_write_chunk sha256 handle bytes s.world).0, s1) _
            (λ e k. wrote)
            (λ _ k.
              let rest = write_reserved_replicas-LeavesMaster replicas bytes s1 in
              (rest.0 ∙ wrote.0, rest.1 ∙ wrote.1)))

  -- An attempt that fails is revoked.
  or_revoke-revoked :
      (attempt : Flow (GatewayState LocalCluster Number) (Unit {0}))
      (s : GatewayState LocalCluster Number) (e : GatewayError)
      → (attempt s).0 ≡ raised e
      → (or_revoke (locally now_ms sha256 env) tenant key attempt s).1.world
        ≡ (on_master (λ m. put_revoke m tenant key) (attempt s).1.world).1
  unfolding or_revoke revoke_reservation_after_write_failure on_world local_master_client
  or_revoke-revoked attempt s e bad =
      rw (or_revoke, bad, revoke_reservation_after_write_failure, on_world, local_master_client)

  or_revoke-raised :
      (attempt : Flow (GatewayState LocalCluster Number) (Unit {0}))
      (s : GatewayState LocalCluster Number) (cause : GatewayError)
      → (attempt s).0 ≡ raised cause
      → (e : GatewayError) × ((or_revoke (locally now_ms sha256 env) tenant key attempt s).0
          ≡ raised e)
  unfolding or_revoke revoke_reservation_after_write_failure
  or_revoke-raised attempt s cause bad =
      rw (or_revoke, bad, revoke_reservation_after_write_failure) ((_, refl))

  or_revoke-kept :
      (attempt : Flow (GatewayState LocalCluster Number) (Unit {0}))
      (s : GatewayState LocalCluster Number)
      → (attempt s).0 ≡ done tt
      → or_revoke (locally now_ms sha256 env) tenant key attempt s ≡ (done tt, (attempt s).1)
  unfolding or_revoke
  or_revoke-kept attempt s good = rw (or_revoke, good)

  answer-of :
      {r : GatewayResult (Unit {0}) × GatewayState LocalCluster Number}
      {t : GatewayState LocalCluster Number}
      → r ≡ (done tt, t)
      → r.0 ≡ done tt
  answer-of p = ap (λ (r : GatewayResult (Unit {0}) × GatewayState LocalCluster Number). r.0) p

  -- The object cannot be read at any later time, and reading it changes nothing.
  abbrev pub Unreadable : MasterState → Type 0
  Unreadable m =
      (later : ℕ) → get_replica_list m tenant key later ≡ (CacheResult.err Common.not_found, m)

  -- The master from `m` to `m'`, with a write in between that was started and revoked: the object is
  -- entered as revoked, the quotas are as before, and the object cannot be read.
  pub record IsRevoked (m m' : MasterState) : Type 0 where
    pub len : ℕ
    pub replicas : List ReplicaDescriptor
    pub entered :
        m'.objects
        ≡ insert
            (tenant, key)
            (with_status revoked (reserved_object tenant key len replicas))
            m.objects
    pub quotas : m'.quotas ≡ m.quotas
    pub unreadable : Unreadable m'

  -- What a write of the cache ends with: it is committed, or the master is as before, or the object
  -- was entered and revoked.
  abbrev pub IsClean :
      GatewayState LocalCluster Number
      → GatewayResult CacheWriteStatus × GatewayState LocalCluster Number
      → Type 0
  IsClean s r =
      (r.0 ≡ done committed)
      ⊎ ((r.1.world.master ≡ s.world.master) ⊎ IsRevoked s.world.master r.1.world.master)

  -- A write that is revoked after it was started.
  put_revoke-IsRevoked :
      (len : ℕ) (replicas : List ReplicaDescriptor) (m : MasterState) (w : LocalCluster)
      → (put_start m tenant key len 1).0 ≡ CacheResult.ok replicas
      → w.master ≡ (put_start m tenant key len 1).1
      → w.master_poisoned ≡ false
      → IsRevoked m (on_master (λ m. put_revoke m tenant key) w).1.master
  put_revoke-IsRevoked len replicas m w started same sound =
      let revoke : MasterState → CacheResult (Unit {0}) × MasterState =
        λ m. put_revoke m tenant key in
      let e : (put_revoke (put_start m tenant key len 1).1 tenant key).1
          ≡ (on_master revoke w).1.master =
        ap (λ (n : MasterState). (put_revoke n tenant key).1) (sym same)
        ∙ sym (
            ap (λ (r : GatewayResult (Unit {0}) × LocalCluster). r.1.master)
              (on_master_sound revoke w sound)) in
      let (entered, back) = put_start-put_revoke m tenant key len 1 replicas started in
      subst (IsRevoked m) e (record {
        len = len;
        replicas = replicas;
        entered = entered;
        quotas = back;
        unreadable =
            λ later. (put_start-put_revoke-read m tenant key len 1 later replicas started).1;
      })

  -- The end of a write that was started never fails.
  put_end-done :
      (len : ℕ) (replicas : List ReplicaDescriptor) (m : MasterState) (w : LocalCluster)
      → (put_start m tenant key len 1).0 ≡ CacheResult.ok replicas
      → w.master ≡ (put_start m tenant key len 1).1
      → w.master_poisoned ≡ false
      → (on_master (λ m. put_end m tenant key) w).0 ≡ done tt
  unfolding from_cache
  put_end-done len replicas m w started same sound =
      let finish : MasterState → CacheResult (Unit {0}) × MasterState = λ m. put_end m tenant key in
      let (_, ended, _) = put_start-put_end-read m tenant key len 1 0 replicas started in
      ap (λ (r : GatewayResult (Unit {0}) × LocalCluster). r.0) (on_master_sound finish w sound)
      ∙ ap (λ (n : MasterState). from_cache (put_end n tenant key).0) same
      ∙ ap (λ (r : CacheResult (Unit {0})). from_cache r) ended

  -- A write of the cache over the clients in the same process is committed, or leaves the master as
  -- it was, or enters its object as revoked, with every other object and all quotas as they were, and
  -- that object cannot be read straight after it, at whatever time.
  pub write_cached_bytes-IsClean :
      (bytes : Bytes) (s : GatewayState LocalCluster Number)
      → IsClean s (write_cached_bytes (locally now_ms sha256 env) tenant key bytes s)
  unfolding write_cached_bytes on_world local_master_client
  write_cached_bytes-IsClean bytes s =
      let local = locally now_ms sha256 env in
      continue_cases (IsClean s) (byte_length bytes, s) _ (λ e h. inr (inl refl))
        (λ len _.
          let start : MasterState → CacheResult (List ReplicaDescriptor) × MasterState =
            λ m. put_start m tenant key len 1 in
          continue_cases (IsClean s) (on_world (on_master start) s) _
            (λ e h. inr (inl (start-refused tenant key len s.world e h)))
            (λ replicas started.
              let (sound, start_ok, e1) = on_master-done start s.world replicas started in
              let s1 = (on_world (on_master start) s).1 in
              let storing : Flow (GatewayState LocalCluster Number) (Unit {0}) =
                write_reserved_replicas local tenant key replicas bytes in
              let ending : Flow (GatewayState LocalCluster Number) (Unit {0}) =
                on_world (on_master (λ m. put_end m tenant key)) in
              let (kept, kept_sound) = write_reserved_replicas-LeavesMaster replicas bytes s1 in
              let master1 = kept ∙ ap (λ (w : LocalCluster). w.master) e1 in
              let sound1 = kept_sound ∙ ap (λ (w : LocalCluster). w.master_poisoned) e1 ∙ sound in
              elim (GatewayResult-cases (storing s1).0) [
                | inr (cause, bad) ↦
                    let (error, failed) = or_revoke-raised storing s1 cause bad in
                    continue_cases (IsClean s) (or_revoke local tenant key storing s1) _
                      (λ e h. inr (
                        inr (
                          subst (IsRevoked s.world.master)
                            (sym (
                              ap (λ (w : LocalCluster). w.master)
                                (or_revoke-revoked storing s1 cause bad)))
                            (put_revoke-IsRevoked len replicas s.world.master (storing s1).1.world
                              start_ok master1 sound1))))
                      (λ _ h.
                        absurd
                          (done_raised (or_revoke local tenant key storing s1).0 tt error h failed))
                | inl (_, good) ↦
                    let p = or_revoke-kept storing s1 good in
                    let s2 = (or_revoke local tenant key storing s1).1 in
                    let same : s2 ≡ (storing s1).1 =
                      ap (λ (r : GatewayResult (Unit {0}) × GatewayState LocalCluster Number). r.1)
                        p in
                    let ended : (ending s2).0 ≡ done tt =
                      put_end-done len replicas s.world.master s2.world start_ok
                        (ap (λ (t : GatewayState LocalCluster Number). t.world.master) same
                          ∙ master1)
                        (ap (λ (t : GatewayState LocalCluster Number). t.world.master_poisoned) same
                          ∙ sound1) in
                    continue_cases (IsClean s) (or_revoke local tenant key storing s1) _
                      (λ e h. absurd (
                        done_raised (or_revoke local tenant key storing s1).0 tt e (answer-of p) h))
                      (λ _ h.
                        continue_cases (IsClean s) (or_revoke local tenant key ending s2) _
                          (λ e k. absurd (
                            done_raised (or_revoke local tenant key ending s2).0 tt e
                              (answer-of (or_revoke-kept ending s2 ended)) k))
                          (λ _ k. inl refl))
              ]))
