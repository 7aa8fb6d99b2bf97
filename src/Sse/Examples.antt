-- ===== src/Sse/Examples.antt =====
-- Runs of src/proxy/sse.rs at concrete streams.
use hey_proxy.Base.{
  ℕ, ◌+◌, ◌≤◌, ◌≡◌, refl, Bool, true, false, Option, none, some, List, [], ◌∷◌, ok, err, arith,
  length, if◌then◌else◌,
}
use hey_proxy.Base.Text.{codes, equal_bytes}
use hey_proxy.Json.{Value, null, number, unsigned}
use hey_proxy.Sse.{SseDecoder, fresh, max_frame, feed, not_utf8, after_done, not_json, sse_opened}
use hey_proxy.Sse.Bounds.{decoder_bounded}
use hey_proxy.Sse.RoundTrip.{frames, values, crlf, idle, IsEvent, feed-frames}

-- A parser of two texts.
abbrev from_slice : List ℕ → Option Value
from_slice text =
    if equal_bytes text (codes "null")
    then some null
    else if equal_bytes text (codes "1\n")
    then some (number (unsigned 1))
    else none

abbrev stream : List ℕ
stream = codes "event: x\r\ndata: null\r\n\r\ndata:null\n\ndata: [DONE]\n\n"

stream_read :
    feed from_slice fresh stream true ≡ ok (record fresh { done = true }, null ∷ null ∷ [])
unfolding sse_opened
stream_read = refl

two_lines :
    feed from_slice fresh (codes "data: 1\ndata:\n\n") true ≡ ok (fresh, number (unsigned 1) ∷ [])
unfolding sse_opened
two_lines = refl

unended : feed from_slice fresh (codes "data: null") true ≡ ok (fresh, null ∷ [])
unfolding sse_opened
unended = refl

refused_after_done :
    feed from_slice fresh (codes "data: [DONE]\n\ndata: null\n\n") true ≡ err after_done
unfolding sse_opened
refused_after_done = refl

refused_text : feed from_slice fresh (codes "data: nul\n\n") false ≡ err not_json
unfolding sse_opened
refused_text = refl

refused_bytes : feed from_slice fresh (255 ∷ 10 ∷ []) false ≡ err not_utf8
unfolding sse_opened
refused_bytes = refl

abbrev half : SseDecoder
half = record fresh { line = codes "data: nu"; frame_bytes = 8 }

half_read : feed from_slice fresh (codes "data: nu") false ≡ ok (half, [])
unfolding sse_opened
half_read = refl

decoder_bounded_example :
    (length half.line + length half.acc ≤ half.frame_bytes) × (half.frame_bytes ≤ max_frame)
decoder_bounded_example = decoder_bounded from_slice (codes "data: nu") half [] half_read

abbrev events : List (List ℕ × Value)
events = (codes "null", null) ∷ (codes "null", null) ∷ []

null_IsEvent : IsEvent from_slice (codes "null", null)
unfolding sse_opened
null_IsEvent = record {
  filled = refl;
  plain = ((refl, refl), ((refl, refl), ((refl, refl), ((refl, refl), tt))));
  text = refl;
  not_done = refl;
  fits = omega arith;
  reads = refl;
}

feed-frames_example :
    (d : Bool) × (feed from_slice fresh (frames crlf events) true ≡ ok (idle d, values events))
feed-frames_example = feed-frames from_slice crlf events (null_IsEvent, (null_IsEvent, tt))
