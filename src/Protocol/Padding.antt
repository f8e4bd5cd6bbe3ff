-- ===== src/Protocol/Padding.antt =====
-- White space around the cache mode (crates/protocol/src/cache_headers.rs).
use mooncache.Prelude.{
  ◌≡◌, refl, ap, ◌∙◌, true, ◌&&◌, [], ◌∷◌, ◌++◌, All, Text, Bool-cases, inl, inr, map,
}
use mooncache.Common.{is_whitespace, is_blank}
use mooncache.Protocol.{trim_start, trim_end, ascii_lower, match_mode, parse_cache_control}

-- Nothing but white space.
abbrev pub IsPadding : Text → Type 0
IsPadding pad = All (λ c. is_whitespace c ≡ true) pad

trim_start-append : (pad s : Text) → IsPadding pad → trim_start (pad ++ s) ≡ trim_start s
unfolding trim_start
trim_start-append [] s h = refl
trim_start-append (c ∷ pad) s h = rw h.0 (trim_start-append pad s h.1)

is_blank-append : (s pad : Text) → IsPadding pad → is_blank (s ++ pad) ≡ is_blank s
unfolding is_blank
is_blank-append [] [] h = refl
is_blank-append [] (c ∷ pad) h = rw h.0 (is_blank-append [] pad h.1)
is_blank-append (c ∷ s) pad h = ap (λ b. is_whitespace c && b) (is_blank-append s pad h)

trim_end-padding : (pad : Text) → IsPadding pad → trim_end pad ≡ []
unfolding trim_end is_blank
trim_end-padding [] h = refl
trim_end-padding (c ∷ pad) h = rw (h.0, is_blank-append [] pad h.1) refl

trim_end-append : (s pad : Text) → IsPadding pad → trim_end (s ++ pad) ≡ trim_end s
unfolding trim_end
trim_end-append [] pad h = trim_end-padding pad h
trim_end-append (c ∷ s) pad h = rw (is_blank-append s pad h, trim_end-append s pad h)

trim_start-padding : (pad : Text) → IsPadding pad → trim_start pad ≡ []
unfolding trim_start
trim_start-padding [] h = refl
trim_start-padding (c ∷ pad) h = rw h.0 (trim_start-padding pad h.1)

-- Either everything is white space, or the first other character stays when more follows.
trim_start-prefix :
    (s pad : Text) → IsPadding pad → trim_end (trim_start (s ++ pad)) ≡ trim_end (trim_start s)
unfolding trim_start
trim_start-prefix [] pad h = ap trim_end (trim_start-padding pad h)
trim_start-prefix (c ∷ s) pad h = elim (Bool-cases (is_whitespace c)) [
  | inl white ↦ rw white (trim_start-prefix s pad h)
  | inr other ↦ rw other (trim_end-append (c ∷ s) pad h)
]

-- White space before and after the mode makes no difference.
pub parse_cache_control-padding :
    (before value after : Text)
    → IsPadding before
    → IsPadding after
    → parse_cache_control (before ++ (value ++ after)) ≡ parse_cache_control value
unfolding parse_cache_control
parse_cache_control-padding before value after h k =
    ap (λ (s : Text). match_mode (map ascii_lower s))
      (ap trim_end (trim_start-append before (value ++ after) h) ∙ trim_start-prefix value after k)
