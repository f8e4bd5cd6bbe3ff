-- ===== src/Gateway/CacheFlow/Bodies.antt =====
-- crates/gateway/src/cache_flow.rs over the local clients: bodies that are written are read back.
use mooncache.Prelude.{ℕ, ◌≡◌, ◌∙◌, sym, subst, ap, false, some, text}
use mooncache.Common.{TenantId, CacheKey}
use mooncache.Json.{Json}
use mooncache.Store.Memory.{Bytes}
use mooncache.Gateway.Errors.{GatewayResult, done, raised, Flow, continue}
use mooncache.Gateway.Clients.Local.{LocalCluster}
use mooncache.Gateway.Streaming.{
  JsonResult, decoded, json_error, from_json, cached_body_from_bytes, is_streaming_object,
}
use mooncache.Gateway.CacheFlow.{Environment, GatewayState, committed}
use mooncache.Gateway.CacheFlow.Cached.{
  payload_body, read_cached_bytes, read_cached_body, write_cached_bytes, write_cached_body,
}
use mooncache.Gateway.CacheFlow.Local.{locally, continue-inv}
use mooncache.Gateway.CacheFlow.RoundTrip.{write-read_cached_bytes}

from_json-inv : {A : Type 0} (r : JsonResult A) (a : A) → from_json r ≡ done a → r ≡ decoded a
unfolding from_json
from_json-inv (decoded a) b h = cc
from_json-inv (json_error message) b h = cc

-- A step whose answer is known.
continue-done :
    {S A B : Type 0} (r : GatewayResult A × S) (f : A → Flow S B) (a : A)
    → r.0 ≡ done a
    → continue r f ≡ f a r.1
unfolding continue
continue-done (done a, s) f b h = ap (λ x. f x s) cc
continue-done (raised e, s) f b h = cc

decoded-injective : (a b : Bytes) → ◌≡◌ {A = JsonResult Bytes} (decoded a) (decoded b) → a ≡ b
decoded-injective a b h = cc

module _ {Number : Type 0} (env : Environment LocalCluster Number) (sha256 : Bytes → Bytes)
    (now_ms later : ℕ) (tenant : TenantId) (key : CacheKey)
    (s s' : GatewayState LocalCluster Number) where
  -- A body that is written and committed, with the master and the store in the same process, is the
  -- body that a read at any later time finds, with no call in between, if serde_json prints this body
  -- as `bytes` and parses `bytes` as this body, and the body does not have the mark of a stream.
  pub write-read_cached_body :
      (body : Json Number) (bytes : Bytes)
      → env.codec.to_vec body ≡ decoded bytes
      → env.codec.from_slice bytes ≡ decoded body
      → is_streaming_object body ≡ false
      → write_cached_body (locally now_ms sha256 env) tenant key body s ≡ (done committed, s')
      → (read_cached_body (locally later sha256 env) tenant key s').0
        ≡ done (some (record { value = body; tier = text "dram" }))
  unfolding write_cached_body read_cached_body payload_body cached_body_from_bytes from_json
  write-read_cached_body body bytes prints parsed unmarked h =
      let (bytes', printed, h1) =
        continue-inv (from_json (env.codec.to_vec body), s) _ committed s' h in
      let same =
        decoded-injective bytes' bytes
          (sym (from_json-inv (env.codec.to_vec body) bytes' printed) ∙ prints) in
      let read = write-read_cached_bytes env sha256 now_ms later tenant key bytes s s' (
        subst
          (λ (b : Bytes).
            write_cached_bytes (locally now_ms sha256 env) tenant key b s ≡ (done committed, s'))
          same h1) in
      rw (
        continue-done (read_cached_bytes (locally later sha256 env) tenant key s') _ _ read,
        payload_body,
        cached_body_from_bytes,
        parsed,
        unmarked,
        from_json,
      )
