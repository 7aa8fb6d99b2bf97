-- ===== src/Capacity/Examples.antt =====
-- Runs of src/proxy/capacity.rs at concrete events and streams.
use hey_proxy.Base.{
  ℕ, ◌<◌, ◌≡◌, refl, false, Option, none, some, List, [], ◌∷◌, arith, length, concat, map,
  if◌then◌else◌, All,
}
use hey_proxy.Base.Text.{codes, contains}
use hey_proxy.Json.{Value, string, object, end, field, number, unsigned}
use hey_proxy.Framing.{complete_lines, decide_lines}
use hey_proxy.Capacity.{
  Prelude, waiting, started, refused, explained, event, event_value, capacity_opened,
}
use hey_proxy.Capacity.Translation.{event_value-once}
use hey_proxy.Capacity.Stream.{default, limit, translate_frame, feed, feed_chunks, stream_opened}
use hey_proxy.Capacity.Stream.Order.{cut, feed_chunks-cut}
use hey_proxy.Capacity.Stream.Forwarded.{Forwarded, feed_chunks-Forwarded}
use hey_proxy.Capacity.Stream.Kept.{IsPlain}
use hey_proxy.Capacity.Stream.Unchanged.{feed_chunks_unchanged}
use hey_proxy.Capacity.Stream.Bounds.{buffer_bounded}
use hey_proxy.Capacity.Scan.{is_waiting, strip_newline, scan, prelude_sse}
use hey_proxy.Capacity.Scan.Refines.{prelude_sse-decide_lines}

abbrev error_event : Value → Value
error_event error = object (field "type" (string "error") (field "error" error end))

abbrev overloaded : Value
overloaded =
    object (field "code" (string "server_is_overloaded") (field "message" (string "busy") end))

abbrev translated_event : Value
translated_event = object (
    field "type" (string "error") (
      field "error"
        (object (
          field "code" (string "server_error") (
            field "message" (string (explained "busy")) (
              field "upstream_code" (string "server_is_overloaded")
                (field "type" (string "server_error") end)))))
        (field "status" (number (unsigned 500)) end)))

overloaded_translated : event_value (error_event overloaded) ≡ some translated_event
unfolding capacity_opened
overloaded_translated = refl

event_value-once_example : event_value translated_event ≡ none
event_value-once_example =
    event_value-once (error_event overloaded) translated_event overloaded_translated

quota_kept :
    event_value (
      error_event (
        object (
          field "code" (string "insufficient_quota") (field "message" (string "at capacity") end))))
    ≡ none
unfolding capacity_opened
quota_kept = refl

-- An event handler that knows one event.
abbrev busy : List ℕ → Option (List ℕ)
busy acc = if contains (codes "busy") acc then some (codes "retry") else none

abbrev chunks : List (List ℕ)
chunks = codes ": up\r\n\r" ∷ codes "\ndata: bu" ∷ codes "sy\ndata: 1\n\nda" ∷ codes "ta: x" ∷ []

chunks_translated : feed_chunks busy default chunks ≡ codes ": up\r\n\r\ndata: retry\n\ndata: x"
unfolding stream_opened contains
chunks_translated = refl

feed_chunks-cut_example :
    feed_chunks busy default chunks
    ≡ concat (map (translate_frame busy) (cut false [] (concat chunks)))
feed_chunks-cut_example = feed_chunks-cut busy chunks (omega arith)

feed_chunks-Forwarded_example : Forwarded busy (concat chunks) (feed_chunks busy default chunks)
feed_chunks-Forwarded_example = feed_chunks-Forwarded busy chunks

-- The translation of the program, by a parser that knows one event.
abbrev parse_busy : List ℕ → Option Value
parse_busy acc = if contains (codes "busy") acc then some (error_event overloaded) else none

abbrev translation : List ℕ → Option (List ℕ)
translation = event parse_busy (λ v. some (codes "{}"))

abbrev plain_chunks : List (List ℕ)
plain_chunks = codes "data: 1\r\n\r" ∷ codes "\nda" ∷ codes "ta: x" ∷ []

busy_is_translated : translation (codes "busy") ≡ some (codes "{}")
unfolding capacity_opened contains
busy_is_translated = refl

chunks-IsPlain : All (IsPlain translation) (cut false [] (concat plain_chunks))
unfolding capacity_opened stream_opened cut contains
chunks-IsPlain = (refl, (refl, tt))

feed_chunks_unchanged_example : feed_chunks translation default plain_chunks ≡ concat plain_chunks
feed_chunks_unchanged_example = feed_chunks_unchanged translation plain_chunks chunks-IsPlain

buffer_bounded_example : length (feed busy default (codes "data: x")).0.buffer < limit
buffer_bounded_example = buffer_bounded busy (codes "data: x") default (omega arith)

abbrev classify : List ℕ → Prelude
classify acc =
    if contains (codes "created") acc
    then waiting
    else if contains (codes "busy") acc
    then refused
    else started

abbrev prelude : List ℕ
prelude = codes "data: created\n\ndata: busy\n\n"

prelude_refused : prelude_sse classify prelude false ≡ refused
unfolding stream_opened contains prelude_sse scan strip_newline
prelude_refused = refl

prelude_sse-decide_lines_example :
    prelude_sse classify prelude false
    ≡ decide_lines classify is_waiting waiting [] (complete_lines [] prelude)
prelude_sse-decide_lines_example = prelude_sse-decide_lines classify prelude (omega arith)
