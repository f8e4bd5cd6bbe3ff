-- ===== src/Gateway/Streaming.antt =====
-- crates/gateway/src/streaming.rs. What serde derives and parses is a parameter.
use mooncache.Prelude.{
  Bool, false, List, [], ◌∷◌, ◌++◌, reverse, Option, none, some, if◌then◌else◌, Text, text, text_eq,
  ◌==◌,
}
use mooncache.Json.{Json, object, get, as_str, get_member}
use mooncache.Protocol.{SseEvent}
use mooncache.Store.Memory.{Bytes}
use mooncache.Gateway.Errors.{
  VendorError, invalid_response, vendor, json, GatewayResult, done, raised,
}

pub record CapturedStream (Number : Type 0) : Type 0 where
  pub events : List SseEvent
  pub final_body : Json Number

pub record CachedStreamObject (Number : Type 0) : Type 0 where
  pub mooncache_object : Text
  pub events : List SseEvent
  pub final_body : Json Number

abbrev pub streaming_object_type : Text
streaming_object_type = text "mooncache.streaming-response.v1"

-- `Result<A, serde_json::Error>`, the error by its message.
pub data JsonResult {ℓ} (A : Type ℓ) : Type ℓ where
  decoded : A → JsonResult A
  json_error : Text → JsonResult A

-- serde_json: `to_vec` of a value, `from_slice`, `from_str`, and what is derived for a cached stream.
pub record Codec (Number : Type 0) : Type 0 where
  pub to_vec : Json Number → JsonResult Bytes
  pub from_slice : Bytes → JsonResult (Json Number)
  pub from_str : Text → JsonResult (Json Number)
  pub object_to_vec : CachedStreamObject Number → JsonResult Bytes
  pub object_from_value : Json Number → JsonResult (CachedStreamObject Number)

-- `Result<A, VendorError>`
pub data VendorResult {ℓ} (A : Type ℓ) : Type ℓ where
  replied : A → VendorResult A
  failed : VendorError → VendorResult A

-- `?` in a function whose error is a `GatewayError`.
unfoldable pub from_json {ℓ} : {A : Type ℓ} → JsonResult A → GatewayResult A
from_json (decoded a) = done a
from_json (json_error message) = raised (json message)

unfoldable pub from_vendor {ℓ} : {A : Type ℓ} → VendorResult A → GatewayResult A
from_vendor (replied a) = done a
from_vendor (failed e) = raised (vendor e)

-- The first of the events that is named `response.completed`.
unfoldable pub find_completed : List SseEvent → Option SseEvent
find_completed [] = none
find_completed (event ∷ events) = elim event.event [
  | none ↦ find_completed events
  | some name ↦ if name == text "response.completed" then some event else find_completed events
]

-- The events of a stream up to its end, or the first error.
unfoldable pub collect_events : List (VendorResult SseEvent) → VendorResult (List SseEvent)
collect_events [] = replied []
collect_events (failed e ∷ stream) = failed e
collect_events (replied event ∷ stream) = elim (collect_events stream) [
  | replied events ↦ replied (event ∷ events)
  | failed e ↦ failed e
]

module _ {Number : Type 0} where
  unfoldable pub response_member : Json Number → Json Number
  response_member (object members) = elim (get_member (text "response") members) [
    | none ↦ object members
    | some response ↦ response
  ]
  response_member value = value

  unfoldable pub is_streaming_object : Json Number → Bool
  is_streaming_object value = elim (get (text "mooncache_object") value) [
    | none ↦ false
    | some kind ↦ elim (as_str kind) [
      | none ↦ false
      | some object_type ↦ object_type == streaming_object_type
    ]
  ]

module _ {Number : Type 0} (codec : Codec Number) where
  -- The last `response.completed` event has the body.
  unfoldable pub aggregate_final_body : List SseEvent → VendorResult (Json Number)
  unfolding find_completed response_member
  aggregate_final_body events = elim (find_completed (reverse events)) [
    | none ↦ failed (invalid_response (text "stream completed without response.completed event"))
    | some completed ↦ elim (codec.from_str completed.data_text) [
      | json_error message ↦
          failed (invalid_response (text "response.completed data was not valid JSON: " ++ message))
      | decoded completed_data ↦ replied (response_member completed_data)
    ]
  ]

  unfoldable pub collect_stream :
      List (VendorResult SseEvent) → VendorResult (CapturedStream Number)
  unfolding collect_events aggregate_final_body
  collect_stream stream = elim (collect_events stream) [
    | failed e ↦ failed e
    | replied events ↦ elim (aggregate_final_body events) [
      | failed e ↦ failed e
      | replied final_body ↦ replied (record { events = events; final_body = final_body })
    ]
  ]

  unfoldable pub serialize_stream_object : CapturedStream Number → JsonResult Bytes
  serialize_stream_object captured = codec.object_to_vec (record {
    mooncache_object = streaming_object_type;
    events = captured.events;
    final_body = captured.final_body;
  })

  unfoldable pub cached_body_from_bytes : Bytes → JsonResult (Json Number)
  unfolding is_streaming_object
  cached_body_from_bytes bytes = elim (codec.from_slice bytes) [
    | json_error message ↦ json_error message
    | decoded value ↦
        if is_streaming_object value
        then elim (codec.object_from_value value) [
          | json_error message ↦ json_error message
          | decoded cached ↦ decoded cached.final_body
        ]
        else decoded value
  ]

  unfoldable pub stream_object_from_bytes : Bytes → JsonResult (Option (CachedStreamObject Number))
  unfolding is_streaming_object
  stream_object_from_bytes bytes = elim (codec.from_slice bytes) [
    | json_error message ↦ json_error message
    | decoded value ↦
        if is_streaming_object value
        then elim (codec.object_from_value value) [
          | json_error message ↦ json_error message
          | decoded cached ↦ decoded (some cached)
        ]
        else decoded none
  ]
