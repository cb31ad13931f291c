-- ===== src/Examples/Pumping.antt =====
-- The theorems on a connection's reader and writer, and on the bytes of a stream.
use copilot_openai_proxy.Base.{
  ◌≡◌, refl, inl, true, false, Option, none, some, List, [], ◌∷◌, ◌++◌, map, keep, arith,
}
use copilot_openai_proxy.Base.Text.{Text, codes, text_eq, has_prefix}
use copilot_openai_proxy.Base.Unicode.{ascii_tables}
use copilot_openai_proxy.Errors.{Err, plain, Result, ok}
use copilot_openai_proxy.Protocol.{StreamEvent, parse_server_event}
use copilot_openai_proxy.Hashcash.{solve_hashcash}
use copilot_openai_proxy.Completion.{
  SseItem, Chunk, json, done_marker, stop_chunk, received, complete_loop,
}
use copilot_openai_proxy.Connection.{Reads}
use copilot_openai_proxy.Outbound.{Outgoing, options, default_set_options}
use copilot_openai_proxy.Sse.{write_items}
use copilot_openai_proxy.Sse.RoundTrip.{read_events, items_of, Encodes, written_items_read}
use copilot_openai_proxy.Pump.{
  Pump, WriteRequest, new_conn_pump, enqueue, write_next, last_event, read_loop, queued, answered,
  send_result, put_result,
}
use copilot_openai_proxy.Pump.Reading.{
  passes, parsed, answer_messages, text_until_end, message_id_at_end, error_at_end,
  connection_completes,
}
use copilot_openai_proxy.Pump.Streaming.{forwarded, connection_streams}
use copilot_openai_proxy.Completion.Laws.{stream_text}
use copilot_openai_proxy.Requests.{event_stream, stream_response_of}
use copilot_openai_proxy.Pump.Steps.{Reach, start, next, queues, writes, Orderly, Reach-Orderly}
use copilot_openai_proxy.Pump.Refines.{Runs, nothing_submitted, view, Reach-Runs}
use copilot_openai_proxy.Pump.Writing.{
  Has, result, sent-wire, Drained, write_all, write_all-Drained,
}
use copilot_openai_proxy.Examples.Serving.{stamp}
use copilot_openai_proxy.Examples.Starting.{envelope}

-- One chunk is ever written, and its encoding is as short as can be.
abbrev a_chunk : Chunk
a_chunk = stop_chunk stamp

abbrev marshal_it : Chunk → Result Text
marshal_it c = ok (codes "{}")

abbrev unmarshal_it : Text → Option Chunk
unmarshal_it t = some a_chunk

a_chunk-Encodes : Encodes marshal_it unmarshal_it a_chunk
unfolding has_prefix
a_chunk-Encodes = record {
  payload = codes "{}";
  encoded = refl;
  one_line = refl;
  is_object = refl;
  decoded = refl;
}

written_items_read_example :
    items_of marshal_it unmarshal_it
      (read_events (write_items marshal_it (json a_chunk ∷ done_marker ∷ [])))
    ≡ map some (json a_chunk ∷ done_marker ∷ [])
written_items_read_example =
    written_items_read marshal_it unmarshal_it (json a_chunk ∷ done_marker ∷ [])
      (a_chunk-Encodes, tt)

-- A connection that delivers a challenge, a text and the end, and then fails.
abbrev some_reads : Reads
some_reads = record {
  frames =
      some (envelope (codes "challenge") [])
      ∷ none
      ∷ some (envelope (codes "appendText") (codes "hi"))
      ∷ some (envelope (codes "done") [])
      ∷ [];
  failure = plain (codes "EOF");
  ended = none;
}

connection_completes_example :
    let evts = parsed ⦃u = ascii_tables⦄ (λ t. []) 1 some_reads.frames in
    let events =
      keep (λ evt. passes evt.event_type) evts ++ last_event (λ e. false) some_reads ∷ [] in
    (read_loop (λ t. []) 1 ⦃u = ascii_tables⦄ (λ e. false) some_reads
      ≡ some (events, answer_messages ([] ∷ [])))
    × (complete_loop ⦃u = ascii_tables⦄ (map received events) [] []
        ≡ some (record {
          text = text_until_end ⦃u = ascii_tables⦄ evts;
          message_id = message_id_at_end evts [];
          error = error_at_end evts (last_event (λ e. false) some_reads).error;
          invalidated = false;
        }))
unfolding parse_server_event text_eq solve_hashcash
connection_completes_example =
    connection_completes ⦃u = ascii_tables⦄ (λ t. []) 1 (λ e. false) some_reads ([] ∷ []) (refl, tt)

connection_streams_example :
    let evts = parsed ⦃u = ascii_tables⦄ (λ t. []) 1 some_reads.frames in
    (events : List StreamEvent) × (items : List SseItem) × (read_loop
        (λ t. [])
        1
        ⦃u = ascii_tables⦄
        (λ e. false)
        some_reads
      ≡ some (events, answer_messages ([] ∷ [])))
    × (stream_response_of ⦃u = ascii_tables⦄ true stamp (ok (forwarded events))
        ≡ some (event_stream items))
    × (stream_text items ≡ text_until_end ⦃u = ascii_tables⦄ evts)
unfolding parse_server_event text_eq solve_hashcash
connection_streams_example =
    connection_streams ⦃u = ascii_tables⦄ (λ t. []) 1 stamp (λ e. false) some_reads ([] ∷ [])
      (refl, tt)

abbrev a_message : Outgoing
a_message = options default_set_options

abbrev the_request : WriteRequest
the_request = (0, a_message)

-- One message is queued, and written.
abbrev pumped : Pump
pumped = write_next Err.nil (enqueue a_message new_conn_pump)

pumped-Reach : Reach pumped
unfolding enqueue
pumped-Reach =
    next (next start (queues new_conn_pump a_message (omega arith)))
      (writes (enqueue a_message new_conn_pump) Err.nil refl)

Reach-Orderly_example : Orderly pumped
Reach-Orderly_example = Reach-Orderly pumped-Reach

Reach-Runs_example : Runs nothing_submitted (view pumped)
Reach-Runs_example = Reach-Runs pumped-Reach

sent-wire_example : Has the_request pumped.wire
unfolding enqueue write_next put_result send_result
sent-wire_example =
    sent-wire the_request queued (answered Err.nil) pumped-Reach (result Err.nil (inl refl)) refl

write_all-Drained_example :
    Drained
      (Err.nil ∷ [])
      (enqueue a_message new_conn_pump)
      (write_all (Err.nil ∷ []) (enqueue a_message new_conn_pump))
unfolding enqueue
write_all-Drained_example =
    write_all-Drained (Err.nil ∷ []) (enqueue a_message new_conn_pump) refl refl
