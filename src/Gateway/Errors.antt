-- ===== src/Gateway/Errors.antt =====
-- `GatewayError` of crates/gateway/src/cache_flow.rs, `VendorError` of vendor.rs, and the messages.
use mooncache.Prelude.{
  ℕ, ◌≡◌, refl, ◌⊎◌, inl, inr, Bool, true, false, ◌&&◌, ◌||◌, eqb, leb, ◌++◌, decimal, Text, text,
}
use mooncache.Common.{CacheError, cache_error_text}
use mooncache.Store.{
  StoreError, empty_chunk, unwritten_chunk, insufficient_capacity, invalid_handle, length_mismatch,
  checksum_mismatch,
}

-- The attributes of the variants of `StoreError`.
unfoldable pub store_error_text : StoreError → Text
store_error_text empty_chunk = text "chunk length must be greater than zero"
store_error_text (insufficient_capacity requested available) =
    text "insufficient DRAM capacity: requested "
    ++ (decimal requested ++ (text " bytes, available " ++ (decimal available ++ text " bytes")))
store_error_text (invalid_handle offset len) =
    text "invalid chunk handle: offset " ++ (decimal offset ++ (text ", len " ++ decimal len))
store_error_text (length_mismatch expected actual) =
    text "chunk write length mismatch: expected "
    ++ (decimal expected ++ (text " bytes, got " ++ (decimal actual ++ text " bytes")))
store_error_text unwritten_chunk = text "chunk has not been written"
store_error_text (checksum_mismatch offset) =
    text "checksum mismatch for chunk at offset " ++ decimal offset

pub data VendorError : Type 0 where
  http_status : (status : ℕ) (body : Text) → VendorError
  transport invalid_response : (message : Text) → VendorError

unfoldable pub vendor_error_text : VendorError → Text
vendor_error_text (http_status status body) =
    text "vendor returned HTTP " ++ (decimal status ++ (text ": " ++ body))
vendor_error_text (transport message) = text "vendor transport error: " ++ message
vendor_error_text (invalid_response message) = text "vendor response was invalid: " ++ message

-- `VendorError::is_retryable_before_stream_start`
unfoldable pub is_retryable_before_stream_start : VendorError → Bool
is_retryable_before_stream_start (transport message) = true
is_retryable_before_stream_start (http_status status body) =
    eqb status 429 || (leb 500 status && leb status 599)
is_retryable_before_stream_start (invalid_response message) = false

-- `json` has the message of a `serde_json::Error`.
pub data GatewayError : Type 0 where
  cache : CacheError → GatewayError
  store : StoreError → GatewayError
  vendor : VendorError → GatewayError
  json : Text → GatewayError
  poisoned_lock : GatewayError
  reservation_revoke_failed : (write_error revoke_error : Text) → GatewayError
  singleflight_leader_failed : Text → GatewayError
  master_upstream : Text → GatewayError
  store_upstream : Text → GatewayError

-- `to_string()`
unfoldable pub gateway_error_text : GatewayError → Text
unfolding store_error_text vendor_error_text
gateway_error_text (cache e) = cache_error_text e
gateway_error_text (store e) = store_error_text e
gateway_error_text (vendor e) = vendor_error_text e
gateway_error_text (json message) = message
gateway_error_text poisoned_lock = text "gateway state lock was poisoned"
gateway_error_text (reservation_revoke_failed write_error revoke_error) =
    text "cache write failed ("
    ++ (write_error
        ++ (text "); additionally failed to revoke reservation (" ++ (revoke_error ++ text ")")))
gateway_error_text (singleflight_leader_failed message) =
    text "singleflight leader failed: " ++ message
gateway_error_text (master_upstream message) = text "master upstream error: " ++ message
gateway_error_text (store_upstream message) = text "store upstream error: " ++ message

-- `Result<T, GatewayError>`
pub data GatewayResult {ℓ} (A : Type ℓ) : Type ℓ where
  done : A → GatewayResult A
  raised : GatewayError → GatewayResult A

pub GatewayResult-cases {ℓ} :
    {A : Type ℓ} (r : GatewayResult A)
    → ((a : A) × (r ≡ done a)) ⊎ ((e : GatewayError) × (r ≡ raised e))
GatewayResult-cases (done a) = inl (a, refl)
GatewayResult-cases (raised e) = inr (e, refl)

-- A part of a handler: what it answers, and the state that it leaves, also where it fails.
abbrev pub Flow : Type 0 → Type 0 → Type 0
Flow S A = S → GatewayResult A × S

-- `?` on a part of a handler.
unfoldable pub continue :
    {S A B : Type 0} → GatewayResult A × S → (A → Flow S B) → GatewayResult B × S
continue (done a, s) f = f a s
continue (raised e, s) f = (raised e, s)

infixl 5 ◌>>=◌ ◌>>◌
abbrev pub ◌>>=◌ : {S A B : Type 0} → Flow S A → (A → Flow S B) → Flow S B
(m >>= f) s = continue (m s) f

abbrev pub ◌>>◌ : {S B : Type 0} → Flow S (Unit {0}) → Flow S B → Flow S B
m >> k = m >>= λ _. k

abbrev pub pure : {S A : Type 0} → A → Flow S A
pure a s = (done a, s)

abbrev pub raise : {S A : Type 0} → GatewayError → Flow S A
raise e s = (raised e, s)

-- A step that cannot fail.
abbrev pub then_change : {S : Type 0} → (S → S) → Flow S (Unit {0})
then_change f s = (done tt, f s)

-- `?` on a value that is there already.
abbrev pub lift : {S A : Type 0} → GatewayResult A → Flow S A
lift r s = (r, s)
