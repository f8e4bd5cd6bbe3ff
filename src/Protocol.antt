-- ===== src/Protocol.antt =====
-- crates/protocol/src: the cache modes that a request may ask for, the cache statuses, and the data
-- that goes over the wire.
pub mod Padding
mod Examples
use mooncache.Prelude.{
  ℕ, Bool, true, false, ◌&&◌, leb, ◌+◌, if◌then◌else◌, List, [], ◌∷◌, map, Option, Text, text,
  text_eq, ◌==◌,
}
use mooncache.Common.{is_whitespace, is_blank, TenantId, CacheKey}
use mooncache.Json.{Json}

pub data CacheControl : Type 0 where
  default_mode bypass read_only write_only cache_only force_replay : CacheControl

-- `HeaderError` has one constructor, `InvalidCacheControl`.
pub data HeaderResult : Type 0 where
  parsed : CacheControl → HeaderResult
  invalid_cache_control : Text → HeaderResult

-- `str::trim_start`
unfoldable pub trim_start : Text → Text
trim_start [] = []
trim_start (c ∷ s) = let rest = trim_start s in if is_whitespace c then rest else c ∷ s

-- `str::trim_end`
unfoldable pub trim_end : Text → Text
trim_end [] = []
trim_end (c ∷ s) = let rest = trim_end s in if is_whitespace c && is_blank s then [] else c ∷ rest

-- `char::to_ascii_lowercase`
unfoldable pub ascii_lower : ℕ → ℕ
ascii_lower c = if leb b'A' c && leb c b'Z' then c + 32 else c

-- The `match` of `CacheControl::parse`.
unfoldable pub match_mode : Text → HeaderResult
match_mode mode =
    if mode == []
    then parsed default_mode
    else if mode == text "default"
    then parsed default_mode
    else if mode == text "bypass"
    then parsed bypass
    else if mode == text "read-only"
    then parsed read_only
    else if mode == text "write-only"
    then parsed write_only
    else if mode == text "cache-only"
    then parsed cache_only
    else if mode == text "force-replay"
    then parsed force_replay
    else invalid_cache_control mode

-- `CacheControl::parse`
unfoldable pub parse_cache_control : Text → HeaderResult
unfolding trim_start trim_end ascii_lower match_mode
parse_cache_control value = match_mode (map ascii_lower (trim_end (trim_start value)))

pub data CacheStatus : Type 0 where
  hit miss bypassed ineligible cache_only_miss degraded : CacheStatus

pub record ResponsesRequest (Number : Type 0) : Type 0 where
  pub model : Text
  pub body : Json Number

pub record ResponsesResponse (Number : Type 0) : Type 0 where
  pub body : Json Number

pub record SseEvent : Type 0 where
  pub event : Option Text
  pub data_text : Text

-- `CacheObjectRef`, and the `AdminError` of the protocol.
pub record CacheObjectRef : Type 0 where
  pub tenant_id : TenantId
  pub cache_key : CacheKey

pub data ProtocolAdminError : Type 0 where
  unauthorized : ProtocolAdminError
  invalid_request : Text → ProtocolAdminError
  cache_object_not_found : CacheObjectRef → ProtocolAdminError
