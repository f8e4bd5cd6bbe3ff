-- ===== src/Gateway/CacheFlow/Local.antt =====
-- What the calls of the clients of crates/gateway/src/clients.rs that hold the master and a memory
-- store in the same process did, when they succeed and when they fail.
use mooncache.Prelude.{
  ℕ, ◌≡◌, refl, sym, ap, ◌∙◌, inl, inr, true, false, arith, text, Bool-cases, if_true, if_false,
}
use mooncache.Common.{CacheResult}
use mooncache.Master.State.{MasterState}
use mooncache.Store.{ChunkHandle, StoreResult}
use mooncache.Store.Memory
use mooncache.Store.Memory.{Bytes, MemoryStore}
use mooncache.Gateway.Errors.{
  GatewayError, poisoned_lock, GatewayResult, done, raised, Flow, continue,
}
use mooncache.Gateway.Clients.Local.{
  LocalCluster, from_cache, from_store, on_master, local_write_chunk, local_read_chunk, tagged_dram,
  local_master_client, local_store_client,
}
use mooncache.Gateway.CacheFlow.{Environment}

-- The environment with the local clients, at a time of the master's clock.
abbrev pub locally :
    {Number : Type 0}
    → ℕ
    → (Bytes → Bytes)
    → Environment LocalCluster Number
    → Environment LocalCluster Number
locally now_ms sha256 env = record env {
  master_client = local_master_client now_ms;
  store_client = local_store_client sha256;
}

-- A step that goes on was done.
pub continue-inv :
    {S A B : Type 0} (r : GatewayResult A × S) (f : A → Flow S B) (b : B) (s' : S)
    → continue r f ≡ (done b, s')
    → (a : A) × (r.0 ≡ done a) × (f a r.1 ≡ (done b, s'))
unfolding continue
continue-inv (done a, s) f b s' h = (a, refl, h)
continue-inv (raised e, s) f b s' h = cc

from_cache-inv :
    {A : Type 0} (r : CacheResult A) (a : A) → from_cache r ≡ done a → r ≡ CacheResult.ok a
unfolding from_cache
from_cache-inv (CacheResult.ok a) b h = cc
from_cache-inv (CacheResult.err e) b h = cc

from_store-inv :
    {A : Type 0} (r : StoreResult A) (a : A) → from_store r ≡ done a → r ≡ StoreResult.ok a
unfolding from_store
from_store-inv (StoreResult.ok a) b h = cc
from_store-inv (StoreResult.err e) b h = cc

raised_done {ℓ} :
    {A : Type ℓ} (r : GatewayResult A) (e : GatewayError) (a : A) → r ≡ raised e → ¬ (r ≡ done a)
raised_done r e a h k = ground (arith, h, k)

module _ {A : Type 0} (call : MasterState → CacheResult A × MasterState) (w : LocalCluster) where
  pub on_master-poisoned : w.master_poisoned ≡ true → on_master call w ≡ (raised poisoned_lock, w)
  unfolding on_master
  on_master-poisoned h = if_true w.master_poisoned _ _ h

  pub on_master_sound :
      w.master_poisoned ≡ false
      → on_master call w ≡ (from_cache (call w.master).0, record w { master = (call w.master).1 })
  unfolding on_master
  on_master_sound h = if_false w.master_poisoned _ _ h

  -- A call of the master that succeeds.
  pub on_master-done :
      (a : A)
      → (on_master call w).0 ≡ done a
      → (w.master_poisoned ≡ false)
        × ((call w.master).0 ≡ CacheResult.ok a)
        × ((on_master call w).1 ≡ record w { master = (call w.master).1 })
  on_master-done a h = elim (Bool-cases w.master_poisoned) [
    | inl poisoned ↦ absurd (
        raised_done (on_master call w).0 poisoned_lock a
          (ap (λ (r : GatewayResult A × LocalCluster). r.0) (on_master-poisoned poisoned)) h)
    | inr sound ↦
        let e = on_master_sound sound in
        (
          sound,
          from_cache-inv (call w.master).0 a
              (sym (ap (λ (r : GatewayResult A × LocalCluster). r.0) e) ∙ h),
          ap (λ (r : GatewayResult A × LocalCluster). r.1) e,
        )
  ]

module _ (sha256 : Bytes → Bytes) (handle : ChunkHandle) (w : LocalCluster) where
  local_write_chunk-poisoned :
      (bytes : Bytes)
      → w.memory_poisoned ≡ true
      → local_write_chunk sha256 handle bytes w ≡ (raised poisoned_lock, w)
  unfolding local_write_chunk
  local_write_chunk-poisoned bytes h = if_true w.memory_poisoned _ _ h

  local_write_chunk_sound :
      (bytes : Bytes)
      → w.memory_poisoned ≡ false
      → local_write_chunk sha256 handle bytes w ≡ (
        from_store (Memory.write_preallocated_chunk sha256 w.memory handle bytes).0,
        record w { memory = (Memory.write_preallocated_chunk sha256 w.memory handle bytes).1 },
      )
  unfolding local_write_chunk
  local_write_chunk_sound bytes h = if_false w.memory_poisoned _ _ h

  -- A write of the store that succeeds.
  pub local_write_chunk-done :
      (bytes : Bytes)
      → (local_write_chunk sha256 handle bytes w).0 ≡ done tt
      → (w.memory_poisoned ≡ false)
        × ((Memory.write_preallocated_chunk sha256 w.memory handle bytes).0 ≡ StoreResult.ok tt)
        × ((local_write_chunk sha256 handle bytes w).1 ≡ record w {
          memory = (Memory.write_preallocated_chunk sha256 w.memory handle bytes).1;
        })
  local_write_chunk-done bytes h = elim (Bool-cases w.memory_poisoned) [
    | inl poisoned ↦ absurd (
        raised_done (local_write_chunk sha256 handle bytes w).0 poisoned_lock tt
          (ap (λ (r : GatewayResult (Unit {0}) × LocalCluster). r.0)
            (local_write_chunk-poisoned bytes poisoned))
          h)
    | inr sound ↦
        let e = local_write_chunk_sound bytes sound in
        (
          sound,
          from_store-inv (Memory.write_preallocated_chunk sha256 w.memory handle bytes).0 tt
              (sym (ap (λ (r : GatewayResult (Unit {0}) × LocalCluster). r.0) e) ∙ h),
          ap (λ (r : GatewayResult (Unit {0}) × LocalCluster). r.1) e,
        )
  ]

  -- A read of the store whose lock is sound.
  pub local_read_chunk_sound :
      (bytes : Bytes)
      → w.memory_poisoned ≡ false
      → Memory.read_chunk sha256 w.memory handle ≡ StoreResult.ok bytes
      → local_read_chunk sha256 handle w ≡ (done (record { bytes = bytes; tier = text "dram" }), w)
  unfolding local_read_chunk from_store tagged_dram
  local_read_chunk_sound bytes h read =
      if_false w.memory_poisoned _ _ h ∙ rw (read, from_store, tagged_dram)

  -- A write of the store leaves the master and the locks as they were.
  pub local_write_chunk-world :
      (bytes : Bytes)
      → ((local_write_chunk sha256 handle bytes w).1.master ≡ w.master)
        × ((local_write_chunk sha256 handle bytes w).1.master_poisoned ≡ w.master_poisoned)
  local_write_chunk-world bytes = elim (Bool-cases w.memory_poisoned) [
    | inl poisoned ↦
        let e = local_write_chunk-poisoned bytes poisoned in
        (
          ap (λ (r : GatewayResult (Unit {0}) × LocalCluster). r.1.master) e,
          ap (λ (r : GatewayResult (Unit {0}) × LocalCluster). r.1.master_poisoned) e,
        )
    | inr sound ↦
        let e = local_write_chunk_sound bytes sound in
        (
          ap (λ (r : GatewayResult (Unit {0}) × LocalCluster). r.1.master) e,
          ap (λ (r : GatewayResult (Unit {0}) × LocalCluster). r.1.master_poisoned) e,
        )
  ]
