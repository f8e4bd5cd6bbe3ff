-- ===== src/Gateway/Vendor/Events.antt =====
-- crates/gateway/src/vendor.rs: events that are written out, as the format of server-sent events has
-- it, are parsed back.
use mooncache.Prelude.{
  ◌≡◌, refl, sym, ap, ◌∙◌, false, List, [], ◌∷◌, ◌++◌, map, Option, none, some, Text, text, All,
  All-append, eqb,
}
use mooncache.Common.{is_whitespace}
use mooncache.Protocol.{SseEvent, trim_start}
use mooncache.Gateway.CacheFlow.{strip_prefix}
use mooncache.Gateway.Streaming.{replied}
use mooncache.Gateway.Vendor.{
  trim_end_cr, join_lines, Parsing, flush_sse_event, is_comment, field_line, trimmed_line,
  parse_lines, no_parsing, parsed_events, lines_from, parse_sse_events, is_nothing,
}

append_nil {ℓ} : {A : Type ℓ} (xs : List A) → xs ++ [] ≡ xs
append_nil [] = refl
append_nil (x ∷ xs) = ap (λ l. x ∷ l) (append_nil xs)

append_assoc {ℓ} : {A : Type ℓ} (xs ys zs : List A) → (xs ++ ys) ++ zs ≡ xs ++ (ys ++ zs)
append_assoc [] ys zs = refl
append_assoc (x ∷ xs) ys zs = ap (λ l. x ∷ l) (append_assoc xs ys zs)

-- A text that fits on one line: no white space before it, no carriage return after it, no line feed.
pub record IsLine (s : Text) : Type 0 where
  pub starts : trim_start s ≡ s
  pub ends : trim_end_cr s ≡ s
  pub unbroken : All (λ c. eqb c 10 ≡ false) s

-- An event with the lines of its data, of which there is at least one.
pub record Event : Type 0 where
  pub name : Option Text
  pub first : Text
  pub more : List Text

abbrev pub sse_event : Event → SseEvent
sse_event event = record { event = event.name; data_text = join_lines (event.first ∷ event.more) }

-- `event: ` and `data: `, written as in the format.
unfoldable pub name_line : Option Text → List Text
name_line none = []
name_line (some name) = (text "event: " ++ name) ∷ []

unfoldable pub data_line : Text → Text
data_line s = text "data: " ++ s

unfoldable pub event_lines : Event → List Text
unfolding name_line data_line
event_lines event = name_line event.name ++ (map data_line (event.first ∷ event.more) ++ ([] ∷ []))

unfoldable pub all_lines : List Event → List Text
unfolding event_lines
all_lines [] = []
all_lines (event ∷ events) = event_lines event ++ all_lines events

abbrev pub HasName : Option Text → Type 0
HasName none = Unit
HasName (some name) = IsLine name

pub record IsPrintable (event : Event) : Type 0 where
  pub named : HasName event.name
  pub first_line : IsLine event.first
  pub more_lines : All IsLine event.more

parse_lines-append :
    (p : Parsing) (xs ys : List Text) → parse_lines p (xs ++ ys) ≡ parse_lines (parse_lines p xs) ys
unfolding parse_lines
parse_lines-append p [] ys = refl
parse_lines-append p (x ∷ xs) ys = parse_lines-append (trimmed_line p (trim_end_cr x)) xs ys

data_line-trimmed_line :
    (p : Parsing) (s : Text)
    → IsLine s
    → trimmed_line p (trim_end_cr (data_line s))
      ≡ record p { data_lines = p.data_lines ++ (s ∷ []) }
unfolding data_line trim_end_cr trimmed_line is_comment field_line strip_prefix trim_start text
    is_whitespace
data_line-trimmed_line p s line = rw (line.ends, line.starts)

name_line-trimmed_line :
    (p : Parsing) (name : Text)
    → IsLine name
    → trimmed_line p (trim_end_cr (text "event: " ++ name)) ≡ record p { event_name = some name }
unfolding trim_end_cr trimmed_line is_comment field_line strip_prefix trim_start text is_whitespace
name_line-trimmed_line p name line = rw (line.ends, line.starts)

-- The lines of the data.
map-data_line-parse_lines :
    (p : Parsing) (lines : List Text)
    → All IsLine lines
    → parse_lines p (map data_line lines) ≡ record p { data_lines = p.data_lines ++ lines }
unfolding parse_lines
map-data_line-parse_lines p [] h =
    ap (λ (d : List Text). record p { data_lines = d }) (sym (append_nil p.data_lines))
map-data_line-parse_lines p (line ∷ lines) h =
    let first : Parsing = record p { data_lines = p.data_lines ++ (line ∷ []) } in
    ap (λ (q : Parsing). parse_lines q (map data_line lines)) (data_line-trimmed_line p line h.0)
    ∙ map-data_line-parse_lines first lines h.1
    ∙ ap (λ (d : List Text). record p { data_lines = d })
        (append_assoc p.data_lines (line ∷ []) lines)

-- The data of an event, and the empty line after it.
data_line-flush_sse_event :
    (p : Parsing) (first : Text) (more : List Text)
    → All IsLine (first ∷ more)
    → p.data_lines ≡ []
    → parse_lines p (map data_line (first ∷ more) ++ ([] ∷ [])) ≡ record no_parsing {
      events =
          p.events ++ (record { event = p.event_name; data_text = join_lines (first ∷ more) } ∷ []);
    }
unfolding parse_lines trimmed_line flush_sse_event trim_end_cr
data_line-flush_sse_event p first more h empty =
    parse_lines-append p (map data_line (first ∷ more)) ([] ∷ [])
    ∙ ap (λ (q : Parsing). parse_lines q ([] ∷ [])) (map-data_line-parse_lines p (first ∷ more) h)
    ∙ ap (λ (d : List Text). parse_lines (record p { data_lines = d ++ (first ∷ more) }) ([] ∷ []))
        empty

name_line-parse_lines :
    (events : List SseEvent) (name : Option Text) (rest : List Text)
    → HasName name
    → parse_lines (record no_parsing { events = events }) (name_line name ++ rest)
      ≡ parse_lines (record no_parsing { events = events; event_name = name }) rest
unfolding name_line parse_lines
name_line-parse_lines events none rest h = refl
name_line-parse_lines events (some name) rest h =
    ap (λ (q : Parsing). parse_lines q rest)
      (name_line-trimmed_line (record no_parsing { events = events }) name h)

-- The lines of one event, where no event has begun.
event_lines-parse_lines :
    (events : List SseEvent) (event : Event)
    → IsPrintable event
    → parse_lines (record no_parsing { events = events }) (event_lines event)
      ≡ record no_parsing { events = events ++ (sse_event event ∷ []) }
unfolding event_lines
event_lines-parse_lines events event h =
    name_line-parse_lines events event.name (map data_line (event.first ∷ event.more) ++ ([] ∷ []))
      h.named
    ∙ data_line-flush_sse_event (record no_parsing { events = events; event_name = event.name })
        event.first event.more (h.first_line, h.more_lines) refl

all_lines-parse_lines :
    (events : List SseEvent) (printed : List Event)
    → All IsPrintable printed
    → parse_lines (record no_parsing { events = events }) (all_lines printed)
      ≡ record no_parsing { events = events ++ map sse_event printed }
unfolding all_lines parse_lines
all_lines-parse_lines events [] h =
    ap (λ (es : List SseEvent). record no_parsing { events = es }) (sym (append_nil events))
all_lines-parse_lines events (event ∷ printed) h =
    parse_lines-append (record no_parsing { events = events }) (event_lines event)
      (all_lines printed)
    ∙ ap (λ (q : Parsing). parse_lines q (all_lines printed))
        (event_lines-parse_lines events event h.0)
    ∙ all_lines-parse_lines (events ++ (sse_event event ∷ [])) printed h.1
    ∙ ap (λ (es : List SseEvent). record no_parsing { events = es })
        (append_assoc events (sse_event event ∷ []) (map sse_event printed))

-- Every line, and a line feed after it.
unfoldable pub print_lines : List Text → Text
print_lines [] = []
print_lines (line ∷ lines) = line ++ (10 ∷ print_lines lines)

lines_from-append :
    (current line rest : Text)
    → All (λ c. eqb c 10 ≡ false) line
    → lines_from current (line ++ (10 ∷ rest)) ≡ (current ++ line) ∷ lines_from [] rest
unfolding lines_from
lines_from-append current [] rest h =
    ap (λ (l : Text). l ∷ lines_from [] rest) (sym (append_nil current))
lines_from-append current (c ∷ line) rest h = rw h.0 (
    lines_from-append (current ++ (c ∷ [])) line rest h.1
    ∙ ap (λ (l : Text). l ∷ lines_from [] rest) (append_assoc current (c ∷ []) line))

lines_from-print_lines :
    (lines : List Text)
    → All (λ line. All (λ c. eqb c 10 ≡ false) line) lines
    → lines_from [] (print_lines lines) ≡ lines
unfolding lines_from print_lines is_nothing
lines_from-print_lines [] h = refl
lines_from-print_lines (line ∷ lines) h =
    lines_from-append [] line (print_lines lines) h.0
    ∙ ap (λ (ls : List Text). line ∷ ls) (lines_from-print_lines lines h.1)

-- No line that is printed has a line feed in it.
abbrev IsUnbroken : Text → Type 0
IsUnbroken line = All (λ c. eqb c 10 ≡ false) line

data_lines-IsUnbroken :
    (lines : List Text) → All IsLine lines → All IsUnbroken (map data_line lines)
unfolding data_line text
data_lines-IsUnbroken [] h = tt
data_lines-IsUnbroken (line ∷ lines) h = (
  All-append (λ c. eqb c 10 ≡ false) (text "data: ") line
      (refl, (refl, (refl, (refl, (refl, (refl, tt)))))) h.0.unbroken,
  data_lines-IsUnbroken lines h.1,
)

name_line-IsUnbroken : (name : Option Text) → HasName name → All IsUnbroken (name_line name)
unfolding name_line text
name_line-IsUnbroken none h = tt
name_line-IsUnbroken (some name) h = (
  All-append (λ c. eqb c 10 ≡ false) (text "event: ") name
      (refl, (refl, (refl, (refl, (refl, (refl, (refl, tt))))))) h.unbroken,
  tt,
)

all_lines-IsUnbroken :
    (events : List Event) → All IsPrintable events → All IsUnbroken (all_lines events)
unfolding all_lines event_lines
all_lines-IsUnbroken [] h = tt
all_lines-IsUnbroken (event ∷ events) h =
    let lines = event.first ∷ event.more in
    All-append IsUnbroken (event_lines event) (all_lines events)
      (All-append IsUnbroken (name_line event.name) (map data_line lines ++ ([] ∷ []))
        (name_line-IsUnbroken event.name h.0.named)
        (All-append IsUnbroken (map data_line lines) ([] ∷ [])
          (data_lines-IsUnbroken lines (h.0.first_line, h.0.more_lines)) (tt, tt)))
      (all_lines-IsUnbroken events h.1)

-- Events that are printed one after the other, each with its name if it has one, its lines of data
-- and an empty line, are the events that the parser finds, if there is at least one and no name or
-- line of data begins with white space, ends in a carriage return or has a line feed in it.
pub print_lines-parse_sse_events :
    (event : Event) (events : List Event)
    → All IsPrintable (event ∷ events)
    → parse_sse_events (print_lines (all_lines (event ∷ events)))
      ≡ replied (map sse_event (event ∷ events))
unfolding parse_sse_events parsed_events flush_sse_event
print_lines-parse_sse_events event events h =
    let all = event ∷ events in
    ap
      (λ (lines : List Text). parsed_events (flush_sse_event (parse_lines no_parsing lines)).events)
      (lines_from-print_lines (all_lines all) (all_lines-IsUnbroken all h))
    ∙ ap (λ (p : Parsing). parsed_events (flush_sse_event p).events)
        (all_lines-parse_lines [] all h)
