-- ===== src/Protocol/Examples.antt =====
-- Modes that crates/protocol/src/headers.rs reads, and the theorem at a concrete input.
use mooncache.Prelude.{◌≡◌, refl, [], ◌∷◌, ◌++◌, text, text_beq}
use mooncache.Common.{is_whitespace, is_blank}
use mooncache.Protocol.{parsed, invalid_cache_control, read_only, parse_cache_control}
use mooncache.Protocol.Padding.{parse_cache_control-padding}

upper_case : parse_cache_control (text " Read-Only ") ≡ parsed read_only
unfolding parse_cache_control text is_whitespace is_blank text_beq
upper_case = refl

unknown_mode : parse_cache_control (text "Never") ≡ invalid_cache_control (text "never")
unfolding parse_cache_control text is_whitespace is_blank text_beq
unknown_mode = refl

parse_cache_control-padding_example :
    parse_cache_control ((b' ' ∷ []) ++ (text "bypass" ++ (b' ' ∷ [])))
    ≡ parse_cache_control (text "bypass")
unfolding is_whitespace
parse_cache_control-padding_example =
    parse_cache_control-padding (b' ' ∷ []) (text "bypass") (b' ' ∷ []) (refl, tt) (refl, tt)
