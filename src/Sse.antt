-- ===== src/Sse.antt =====
-- internal/openai/sse.go: the bytes of a stream. encoding/json is a parameter.
pub mod RoundTrip
use copilot_openai_proxy.Base.{ℕ, Option, none, some, List, [], ◌∷◌, ◌++◌}
use copilot_openai_proxy.Base.Text.{Text, codes}
use copilot_openai_proxy.Errors.{Result, ok, err}
use copilot_openai_proxy.Completion.{Chunk, SseItem, json, done_marker}

-- The text of the last event of a stream.
abbrev pub done_text : Text
done_text = codes "[DONE]"

-- `fmt.Fprintf(s.w, "data: %s\n\n", data)`
unfoldable pub event_text : Text → Text
event_text payload = codes "data: " ++ (payload ++ (10 ∷ 10 ∷ []))

module _ (marshal : Chunk → Result Text) where
  -- WriteJSON: what it adds to the response
  unfoldable pub write_json : Chunk → Text
  unfolding event_text
  write_json v = elim (marshal v) [ ok payload ↦ event_text payload | err e ↦ [] ]

  -- WriteDone, with its optional final chunk
  unfoldable pub write_done : Option Chunk → Text
  unfolding write_json event_text
  write_done none = event_text done_text
  write_done (some final) = write_json final ++ event_text done_text

  -- The body that the calls of a writer produce, one after the other.
  unfoldable pub write_items : List SseItem → Text
  unfolding write_json write_done
  write_items [] = []
  write_items (json c ∷ items) = write_json c ++ write_items items
  write_items (done_marker ∷ items) = write_done none ++ write_items items
