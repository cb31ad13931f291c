-- ===== src/Sse/RoundTrip.antt =====
-- A client that reads server-sent events gets back what the writer of internal/openai/sse.go was given.
use copilot_openai_proxy.Base.{
  ℕ, ◌≡◌, refl, sym, ap, ◌∙◌, Bool, true, false, not, Option, none, some, List, [], ◌∷◌, ◌++◌, all,
  arith, map, ◌==◌, if◌then◌else◌,
}
use mathlib.Core.Option
use mathlib.Core.List.{append-nil, append_assoc}
use copilot_openai_proxy.Base.Text.{Text, codes, text_eq, has_prefix}
use copilot_openai_proxy.Errors.{Result, ok, is_empty}
use copilot_openai_proxy.Images.{drop_chars}
use copilot_openai_proxy.Completion.{Chunk, SseItem, json, done_marker}
use copilot_openai_proxy.Sse.{done_text, event_text, write_json, write_items}

-- A reader of events as the format is documented: lines end in a newline, "data: " starts the payload
-- of an event, an empty line ends the event, and an event that is not ended is dropped. `line` is the
-- line that is being read, `payload` the one of the event.
abbrev field_of : Option Text → Text → Option Text
field_of payload line =
    if has_prefix line (codes "data: ") then some (drop_chars 6 line) else payload

abbrev sent : Option Text → List Text
sent none = []
sent (some payload) = payload ∷ []

-- A character: the events that end with it, the payload and the line.
abbrev on_char : Option Text → Text → ℕ → List Text × Option Text × Text
on_char payload line c =
    if c == 10
    then (if is_empty line then (sent payload, none, []) else ([], field_of payload line, []))
    else ([], payload, line ++ c ∷ [])

read_from : Option Text → Text → Text → List Text
read_from payload line [] = []
read_from payload line (c ∷ s) =
    let (events, payload', line') = on_char payload line c in events ++ read_from payload' line' s

pub read_events : Text → List Text
unfolding read_from
read_events body = read_from none [] body

abbrev no_newline : Text → Bool
no_newline = all (λ c. not (c == 10))

read_from-line :
    (payload : Option Text) (line t s : Text)
    → no_newline t ≡ true
    → read_from payload line (t ++ s) ≡ read_from payload (line ++ t) s
unfolding read_from
read_from-line payload line [] s h =
    ap (λ (l : Text). read_from payload l s) (sym (append-nil line))
read_from-line payload line (c ∷ t) s h =
    let rest : no_newline t ≡ true = ground arith in
    let step : on_char payload line c ≡ ([], payload, line ++ c ∷ []) = ground arith in
    rw (step, ← append_assoc line (c ∷ []) t) (read_from-line payload (line ++ c ∷ []) t s rest)

-- An event that is written comes back as its payload, and the reader is where it was.
read_from-event :
    (payload s : Text)
    → no_newline payload ≡ true
    → read_from none [] (event_text payload ++ s) ≡ payload ∷ read_from none [] s
unfolding event_text read_from has_prefix drop_chars
read_from-event payload s h =
    let split : event_text payload ++ s ≡ (codes "data: " ++ payload) ++ (10 ∷ 10 ∷ s) =
      simp append_assoc in
    ap (read_from none []) split
    ∙ read_from-line none [] (codes "data: " ++ payload) (10 ∷ 10 ∷ s) h
    ∙ refl

-- What the round trip relies on of encoding/json: a chunk is encoded as an object on one line, and
-- decoding it gives it back.
pub record Encodes (marshal : Chunk → Result Text) (unmarshal : Text → Option Chunk) (c : Chunk)
    : Type 0 where
  pub payload : Text
  pub encoded : marshal c ≡ ok payload
  pub one_line : no_newline payload ≡ true
  pub is_object : has_prefix payload (codes "{") ≡ true
  pub decoded : unmarshal payload ≡ some c

object_not_done :
    (payload : Text) → has_prefix payload (codes "{") ≡ true → text_eq payload done_text ≡ false
unfolding has_prefix text_eq
object_not_done [] h = ground arith
object_not_done (c ∷ s) h = ground arith

module _ (marshal : Chunk → Result Text) (unmarshal : Text → Option Chunk) where
  abbrev pub EncodesAll : List SseItem → Type 0
  EncodesAll [] = Unit
  EncodesAll (json c ∷ items) = Encodes marshal unmarshal c × EncodesAll items
  EncodesAll (done_marker ∷ items) = EncodesAll items

  -- How a client reads a payload: the text that ends a stream is no JSON.
  abbrev pub item_of : Text → Option SseItem
  item_of payload =
      if text_eq payload done_text then some done_marker else Option.map json (unmarshal payload)

  abbrev pub items_of : List Text → List (Option SseItem)
  items_of [] = []
  items_of (payload ∷ payloads) = item_of payload ∷ items_of payloads

  write_json-payload :
      (c : Chunk) (e : Encodes marshal unmarshal c) → write_json marshal c ≡ event_text e.payload
  unfolding write_json
  write_json-payload c e = rw (e.encoded, write_json)

  item_of-json : (c : Chunk) (e : Encodes marshal unmarshal c) → item_of e.payload ≡ some (json c)
  item_of-json c e = rw (object_not_done e.payload e.is_object, e.decoded)

  -- Whatever the items of a stream, a client that reads the bytes that the writer makes of them, event
  -- by event, decodes those items, in their order and no others, provided that encoding/json writes
  -- every chunk as an object on one line and reads it back.
  pub written_items_read :
      (items : List SseItem)
      → EncodesAll items
      → items_of (read_events (write_items marshal items)) ≡ map some items
  unfolding write_items read_events text_eq
  written_items_read [] h = refl
  written_items_read (json c ∷ items) (e, es) =
      rw
        (
          write_json-payload c e,
          read_from-event e.payload (write_items marshal items) e.one_line,
          item_of-json c e,
        )
        (ap (λ (l : List (Option SseItem)). some (json c) ∷ l) (written_items_read items es))
  written_items_read (done_marker ∷ items) h =
      rw (read_from-event done_text (write_items marshal items) refl)
        (ap (λ (l : List (Option SseItem)). some done_marker ∷ l) (written_items_read items h))
