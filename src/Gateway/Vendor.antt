-- ===== src/Gateway/Vendor.antt =====
-- crates/gateway/src/vendor.rs: the parser of server-sent events, and what the adapters answer about
-- models. Their requests go over HTTP.
pub mod Events
mod Examples
use mooncache.Prelude.{
  ℕ, Bool, true, false, ◌&&◌, List, [], ◌∷◌, ◌++◌, Option, none, some, if◌then◌else◌, eqb, Text,
  text, text_eq, lookup, collect_into, map,
}
use mooncache.Protocol.{SseEvent, trim_start}
use mooncache.Gateway.Config.{VendorModelConfig}
use mooncache.Gateway.CacheFlow.{strip_prefix}
use mooncache.Gateway.Errors.{VendorError, invalid_response}
use mooncache.Gateway.Streaming.{VendorResult, replied, failed}

unfoldable pub is_nothing : Text → Bool
is_nothing [] = true
is_nothing (c ∷ s) = false

-- `trim_end_matches('\r')`
unfoldable pub trim_end_cr : Text → Text
trim_end_cr [] = []
trim_end_cr (c ∷ s) =
    let rest = trim_end_cr s in if eqb c 13 && is_nothing rest then [] else c ∷ rest

-- The lines of a text that end in a line feed, and the rest if there is any. `current` has the
-- letters of the line so far. A carriage return before the line feed is left to `trim_end_cr`.
unfoldable pub lines_from : Text → Text → List Text
lines_from current [] = if is_nothing current then [] else current ∷ []
lines_from current (c ∷ s) =
    if eqb c 10 then current ∷ lines_from [] s else lines_from (current ++ (c ∷ [])) s

-- `data_lines.join("\n")`
unfoldable pub join_lines : List Text → Text
join_lines [] = []
join_lines (line ∷ []) = line
join_lines (line ∷ next ∷ lines) = line ++ (10 ∷ join_lines (next ∷ lines))

-- The local variables of `parse_sse_events`.
pub record Parsing : Type 0 where
  pub events : List SseEvent
  pub event_name : Option Text
  pub data_lines : List Text

unfoldable pub flush_sse_event : Parsing → Parsing
unfolding join_lines
flush_sse_event p = elim p.data_lines [
  | [] ↦ record p { event_name = none }
  | line ∷ lines ↦ record {
    events =
        p.events ++ (record { event = p.event_name; data_text = join_lines (line ∷ lines) } ∷ []);
    event_name = none;
    data_lines = [];
  }
]

-- `line.starts_with(':')`
unfoldable pub is_comment : Text → Bool
is_comment [] = false
is_comment (c ∷ s) = eqb c b':'

-- A line that is neither empty nor a comment.
unfoldable pub field_line : Parsing → Text → Parsing
unfolding strip_prefix trim_start
field_line p line = elim (strip_prefix (text "event:") line) [
  | some value ↦ record p { event_name = some (trim_start value) }
  | none ↦ elim (strip_prefix (text "data:") line) [
    | some value ↦ record p { data_lines = p.data_lines ++ (trim_start value ∷ []) }
    | none ↦ p
  ]
]

-- One round of the loop, once the line is trimmed.
unfoldable pub trimmed_line : Parsing → Text → Parsing
unfolding flush_sse_event is_comment field_line
trimmed_line p [] = flush_sse_event p
trimmed_line p (c ∷ s) = if is_comment (c ∷ s) then p else field_line p (c ∷ s)

unfoldable pub parse_lines : Parsing → List Text → Parsing
unfolding trimmed_line trim_end_cr
parse_lines p [] = p
parse_lines p (line ∷ lines) = parse_lines (trimmed_line p (trim_end_cr line)) lines

abbrev pub no_parsing : Parsing
no_parsing = record { events = []; event_name = none; data_lines = [] }

-- The end of `parse_sse_events`.
unfoldable pub parsed_events : List SseEvent → VendorResult (List SseEvent)
parsed_events [] = failed (invalid_response (text "vendor stream did not contain SSE events"))
parsed_events (event ∷ events) = replied (event ∷ events)

unfoldable pub parse_sse_events : Text → VendorResult (List SseEvent)
unfolding lines_from parse_lines flush_sse_event parsed_events
parse_sse_events s =
    parsed_events (flush_sse_event (parse_lines no_parsing (lines_from [] s))).events

-- The models of the adapter, by the name that is requested.
unfoldable pub models_by_name : List VendorModelConfig → List (Text × VendorModelConfig)
models_by_name models =
    collect_into [] (map (λ (model : VendorModelConfig). (model.requested, model)) models)

-- `model_cache_eligible` of the adapter.
unfoldable pub openai_model_cache_eligible : List (Text × VendorModelConfig) → Text → Bool
openai_model_cache_eligible models requested_model = elim (lookup requested_model models) [
  | none ↦ true
  | some model ↦ model.cache_eligible
]

-- `resolve_model_version` of the adapter.
unfoldable pub openai_resolve_model_version :
    List (Text × VendorModelConfig) → Text → VendorResult Text
openai_resolve_model_version models requested_model = elim (lookup requested_model models) [
  | none ↦ replied requested_model
  | some model ↦ replied model.resolved
]
