-- ===== src/Sse.antt =====
-- src/proxy/sse.rs: the decoder of server-sent events. The JSON parser is the parameter
-- `from_slice`; an error ends the stream, so the state after it is not modelled.
pub mod Frames
pub mod Bounds
pub mod RoundTrip
mod Examples
use hey_proxy.Base.{
  ℕ, suc, ◌*◌, Bool, true, false, Option, none, some, List, [], ◌∷◌, ◌++◌, ltb, ◌==◌, ◌&&◌, ◌||◌,
  if◌then◌else◌, is_empty, but_last, Result, ok, err, ◌>>=◌,
}
use hey_proxy.Base.Text.{codes, equal_bytes, strip_bytes}
use hey_proxy.Base.Utf8.{is_utf8}
use hey_proxy.Framing.{data_part, without_space}
use hey_proxy.Json.{Value}

abbrev pub max_frame : ℕ
max_frame = 16 * 1024 * 1024

pub record SseDecoder : Type 0 where
  pub line : List ℕ
  pub acc : List ℕ  -- `data` in the source
  pub frame_bytes : ℕ
  pub after_cr : Bool
  pub done : Bool

abbrev pub fresh : SseDecoder
fresh = record { line = []; acc = []; frame_bytes = 0; after_cr = false; done = false }

pub data SseError : Type 0 where
  frame_too_big not_utf8 after_done not_json : SseError

-- A decoder and the events that it has pushed.
abbrev pub Decoded : Type 0
Decoded = Result SseError (SseDecoder × List Value)

abbrev pub parsed : SseDecoder → Option Value → Decoded
parsed s (some value) = ok (s, value ∷ [])
parsed s none = err not_json

-- A data field adds its part and a newline.
abbrev pub with_data : List ℕ → Option (List ℕ) → List ℕ
with_data acc (some part) = acc ++ (part ++ 10 ∷ [])
with_data acc none = acc

-- Events of two parts, in order.
abbrev pub behind : List Value → Decoded → Decoded
behind es (ok (s, fs)) = ok (s, es ++ fs)
behind es (err e) = err e

abbrev pub and_then : Decoded → (SseDecoder → Decoded) → Decoded
and_then (ok (s, es)) k = behind es (k s)
and_then (err e) k = err e

module _ (from_slice : List ℕ → Option Value) where
  unfoldable pub dispatch : SseDecoder → Decoded
  dispatch s =
      let cleared = record s { acc = []; frame_bytes = 0 } in
      if is_empty (but_last s.acc)
      then ok (cleared, [])
      else if equal_bytes (but_last s.acc) (codes "[DONE]")
      then ok (record cleared { done = true }, [])
      else if s.done
      then err after_done
      else parsed cleared (from_slice (but_last s.acc))

  unfoldable pub end_line : SseDecoder → Decoded
  end_line s =
      if is_empty s.line
      then dispatch s
      else if is_utf8 s.line
      then ok (record s { line = []; acc = with_data s.acc (data_part s.line) }, [])
      else err not_utf8

  -- One round of the loop of `feed`.
  unfoldable pub step : SseDecoder → ℕ → Decoded
  step s byte =
      let counted = record s { after_cr = byte == 13; frame_bytes = suc s.frame_bytes } in
      if s.after_cr && byte == 10
      then ok (record s { after_cr = false }, [])
      else if ltb max_frame (suc s.frame_bytes)
      then err frame_too_big
      else if byte == 10 || byte == 13
      then end_line counted
      else ok (record counted { line = s.line ++ byte ∷ [] }, [])

  unfoldable pub feed_bytes : SseDecoder → List ℕ → Decoded
  feed_bytes s [] = ok (s, [])
  feed_bytes s (byte ∷ bytes) = and_then (step s byte) (λ t. feed_bytes t bytes)

  -- At the end of the stream: an unfinished line, then an unfinished event.
  unfoldable pub finish : SseDecoder → Decoded
  finish s = and_then (if is_empty s.line then ok (s, []) else end_line s) dispatch

  unfoldable pub feed : SseDecoder → List ℕ → Bool → Decoded
  feed s bytes eof = if eof then and_then (feed_bytes s bytes) finish else feed_bytes s bytes

-- Opens the decoder, for the runs at concrete streams.
unfoldable pub sse_opened : Unit {0}
unfolding feed finish feed_bytes step end_line dispatch data_part without_space strip_bytes is_utf8
    equal_bytes
sse_opened = tt
