-- ===== src/Gateway/Vendor/Examples.antt =====
-- Streams that crates/gateway/src/vendor.rs parses, and the theorem at a concrete input.
use mooncache.Prelude.{
  ◌≡◌, refl, [], ◌∷◌, map, none, some, true, text, text_beq, All, lookup, insert, collect_into,
}
use mooncache.Common.{is_whitespace}
use mooncache.Protocol.{trim_start}
use mooncache.Gateway.Config.{VendorModelConfig}
use mooncache.Gateway.Errors.{invalid_response}
use mooncache.Gateway.Streaming.{replied, failed}
use mooncache.Gateway.Vendor.{
  parse_sse_events, openai_resolve_model_version, models_by_name, trim_end_cr, is_nothing,
}
use mooncache.Gateway.Vendor.Events.{
  Event, IsPrintable, sse_event, all_lines, print_lines, print_lines-parse_sse_events,
}

abbrev delta : Event
delta = record { name = some (b'd' ∷ []); first = b'h' ∷ []; more = (b'i' ∷ []) ∷ [] }

abbrev end : Event
end = record { name = none; first = b'x' ∷ []; more = [] }

nothing :
    parse_sse_events []
    ≡ failed (invalid_response (text "vendor stream did not contain SSE events"))
unfolding parse_sse_events is_nothing
nothing = refl

abbrev model : VendorModelConfig
model = record { requested = b'm' ∷ []; resolved = b'n' ∷ []; cache_eligible = true }

resolved :
    openai_resolve_model_version (models_by_name (model ∷ [])) (b'm' ∷ []) ≡ replied (b'n' ∷ [])
unfolding openai_resolve_model_version models_by_name lookup collect_into insert text_beq
resolved = refl

both-IsPrintable : All IsPrintable (delta ∷ end ∷ [])
unfolding trim_start trim_end_cr is_whitespace
both-IsPrintable = (
  record {
    named = record { starts = refl; ends = refl; unbroken = (refl, tt) };
    first_line = record { starts = refl; ends = refl; unbroken = (refl, tt) };
    more_lines = (record { starts = refl; ends = refl; unbroken = (refl, tt) }, tt);
  },
  (
    record {
      named = tt;
      first_line = record { starts = refl; ends = refl; unbroken = (refl, tt) };
      more_lines = tt;
    },
    tt,
  ),
)

print_lines-parse_sse_events_example :
    parse_sse_events (print_lines (all_lines (delta ∷ end ∷ [])))
    ≡ replied (map sse_event (delta ∷ end ∷ []))
print_lines-parse_sse_events_example =
    print_lines-parse_sse_events delta (end ∷ []) both-IsPrintable
