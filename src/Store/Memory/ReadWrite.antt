-- ===== src/Store/Memory/ReadWrite.antt =====
-- What is written to a chunk and what is read of it (crates/store/src/memory.rs).
use mooncache.Prelude.{
  ℕ, ◌+◌, ◌-◌, ◌≤◌, ◌≡◌, ◌≢◌, refl, sym, subst, ap, ◌∙◌, inl, inr, true, false, List, some, arith,
  eqb, length, u64_max, checked_add, nat_eq, text_eq, ◌==◌, ==_refl, Bool-cases, Option-cases,
  lookup, lookup-insert_self, lookup-insert_ne,
}
use mooncache.Store.{StoreError, StoreResult, StoreResult-cases, ok, err, ChunkHandle}
use mooncache.Store.Slices.{slice, splice, get_range, length-splice, slice-splice}
use mooncache.Store.Memory.{
  Bytes, ChunkMeta, MemoryStore, chunk_end, validate_allocated_handle, set_checksum, write_chunk,
  read_chunk,
}

-- The handle names a chunk of the store that lies inside the arena.
pub record IsChunk (st : MemoryStore) (handle : ChunkHandle) (meta : ChunkMeta) : Type 0 where
  pub found : lookup handle.offset st.allocations ≡ some meta
  pub same_len : meta.len ≡ handle.len
  pub inside : handle.offset + handle.len ≤ length st.arena
  pub no_overflow : handle.offset + handle.len ≤ u64_max

pub validate-IsChunk :
    (st : MemoryStore) (handle : ChunkHandle) (meta : ChunkMeta)
    → validate_allocated_handle st handle ≡ ok meta
    → IsChunk st handle meta
unfolding validate_allocated_handle chunk_end checked_add
validate-IsChunk st handle meta valid = record {
  found = ground arith;
  same_len = ground arith;
  inside = ground arith;
  no_overflow = ground arith;
}

pub IsChunk-validate :
    (st : MemoryStore) (handle : ChunkHandle) (meta : ChunkMeta)
    → IsChunk st handle meta
    → validate_allocated_handle st handle ≡ ok meta
unfolding validate_allocated_handle chunk_end checked_add
IsChunk-validate st handle meta c = ground (arith, c.found, c.same_len, c.inside, c.no_overflow)

pub chunk_end-eq :
    (handle : ChunkHandle)
    → handle.offset + handle.len ≤ u64_max
    → chunk_end handle ≡ ok (handle.offset + handle.len)
unfolding chunk_end checked_add
chunk_end-eq handle fits = ground arith

len_back : (offset len : ℕ) → (offset + len) - offset ≡ len
len_back offset len = omega arith

pub get_range-eq :
    (offset len : ℕ) (xs : Bytes)
    → offset + len ≤ length xs
    → get_range offset (offset + len) xs ≡ some (slice offset len xs)
unfolding get_range
get_range-eq offset len xs fits =
    ground (arith, ap (λ (n : ℕ). slice offset n xs) (len_back offset len))

module _ (sha256 : Bytes → Bytes) where
  -- The state that a successful `write_chunk` leaves.
  abbrev pub written : MemoryStore → ChunkHandle → Bytes → MemoryStore
  written st handle bytes = record st {
    arena = splice handle.offset bytes st.arena;
    allocations = set_checksum sha256 handle.offset bytes st.allocations;
  }

  -- Either the write is refused and nothing changes, or the handle names a chunk of that length.
  pub write_chunk_cases {ℓ} :
      (P : StoreResult (Unit {0}) × MemoryStore → Type ℓ) (st : MemoryStore) (handle : ChunkHandle)
      (bytes : Bytes)
      → ((e : StoreError) → P (err e, st))
      → ((meta : ChunkMeta)
          → IsChunk st handle meta
          → length bytes ≡ handle.len
          → P (ok tt, written st handle bytes))
      → P (write_chunk sha256 st handle bytes)
  unfolding write_chunk
  write_chunk_cases P st handle bytes refused done =
      elim (StoreResult-cases (validate_allocated_handle st handle)) [
        | inr (e, bad) ↦ rw (bad, write_chunk) (refused e)
        | inl (meta, valid) ↦
            let c = validate-IsChunk st handle meta valid in
            elim (Bool-cases (eqb (length bytes) handle.len)) [
              | inr wrong ↦ rw (valid, write_chunk, wrong) (refused _)
              | inl right ↦
                  rw
                    (
                      valid,
                      write_chunk,
                      right,
                      chunk_end-eq handle c.no_overflow,
                      get_range-eq handle.offset handle.len st.arena c.inside,
                    )
                    (done meta c (ground arith))
            ]
      ]

  pub set_checksum-found :
      (offset : ℕ) (bytes : Bytes) (allocations : List (ℕ × ChunkMeta)) (meta : ChunkMeta)
      → lookup offset allocations ≡ some meta
      → lookup offset (set_checksum sha256 offset bytes allocations)
        ≡ some (record meta { checksum = some (sha256 bytes) })
  unfolding set_checksum
  set_checksum-found offset bytes allocations meta found =
      rw (found, set_checksum)
        (lookup-insert_self offset (record meta { checksum = some (sha256 bytes) }) allocations)

  pub set_checksum-other :
      (offset other : ℕ) (bytes : Bytes) (allocations : List (ℕ × ChunkMeta))
      → offset ≢ other
      → lookup other (set_checksum sha256 offset bytes allocations) ≡ lookup other allocations
  unfolding set_checksum
  set_checksum-other offset other bytes allocations differ =
      elim (Option-cases (lookup offset allocations)) [
        | inl missing ↦ rw (missing, set_checksum)
        | inr (meta, found) ↦
            let miss : (offset == other) ≡ false = ground arith in
            rw (found, set_checksum)
              (lookup-insert_ne offset other (record meta { checksum = some (sha256 bytes) })
                allocations miss)
      ]

  -- What a read of a chunk that was written once answers.
  read_chunk-eq :
      (st : MemoryStore) (handle : ChunkHandle) (meta : ChunkMeta) (sum : Bytes)
      → IsChunk st handle meta
      → meta.checksum ≡ some sum
      → (sha256 (slice handle.offset handle.len st.arena) == sum) ≡ true
      → read_chunk sha256 st handle ≡ ok (slice handle.offset handle.len st.arena)
  unfolding read_chunk
  read_chunk-eq st handle meta sum c noted same = rw (
    IsChunk-validate st handle meta c,
    read_chunk,
    noted,
    chunk_end-eq handle c.no_overflow,
    get_range-eq handle.offset handle.len st.arena c.inside,
    same,
  )

  written-IsChunk :
      (st : MemoryStore) (handle : ChunkHandle) (bytes : Bytes) (meta : ChunkMeta)
      → IsChunk st handle meta
      → IsChunk (written st handle bytes) handle (record meta { checksum = some (sha256 bytes) })
  written-IsChunk st handle bytes meta c = record {
    found = set_checksum-found handle.offset bytes st.allocations meta c.found;
    same_len = c.same_len;
    inside = omega (arith, length-splice handle.offset bytes st.arena, c.inside);
    no_overflow = c.no_overflow;
  }

  pub written-read :
      (st : MemoryStore) (handle : ChunkHandle) (bytes : Bytes) (meta : ChunkMeta)
      → IsChunk st handle meta
      → length bytes ≡ handle.len
      → read_chunk sha256 (written st handle bytes) handle ≡ ok bytes
  written-read st handle bytes meta c fits =
      let back : slice handle.offset handle.len (splice handle.offset bytes st.arena) ≡ bytes =
        subst (λ (n : ℕ). slice handle.offset n (splice handle.offset bytes st.arena) ≡ bytes) fits
          (slice-splice handle.offset bytes st.arena (omega (arith, fits, c.inside))) in
      let same : (sha256 (slice handle.offset handle.len (splice handle.offset bytes st.arena))
            == sha256 bytes)
          ≡ true =
        subst (λ (b : Bytes). (sha256 b == sha256 bytes) ≡ true) (sym back)
          (==_refl (sha256 bytes)) in
      read_chunk-eq (written st handle bytes) handle
        (record meta { checksum = some (sha256 bytes) }) (sha256 bytes)
        (written-IsChunk st handle bytes meta c) refl same
      ∙ ap ok back

  -- After a write that succeeds, a read of the same handle gives the bytes that were written.
  pub write_chunk-read_chunk :
      (st : MemoryStore) (handle : ChunkHandle) (bytes : Bytes)
      → (write_chunk sha256 st handle bytes).0 ≡ ok tt
      → read_chunk sha256 (write_chunk sha256 st handle bytes).1 handle ≡ ok bytes
  write_chunk-read_chunk st handle bytes =
      write_chunk_cases
        (λ (r : StoreResult (Unit {0}) × MemoryStore).
          r.0 ≡ ok tt → read_chunk sha256 r.1 handle ≡ ok bytes)
        st handle bytes (λ e done. ground arith)
        (λ meta c fits done. written-read st handle bytes meta c fits)
