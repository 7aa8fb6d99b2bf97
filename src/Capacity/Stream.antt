-- ===== src/Capacity/Stream.antt =====
-- src/proxy/capacity.rs, `Sse`: the translation of a response stream, one event at a time. The
-- translation of the data of an event is the parameter `event`.
pub mod Order
pub mod Forwarded
pub mod Kept
pub mod Unchanged
pub mod Bounds
use hey_proxy.Base.{
  ℕ, ◌*◌, Bool, true, false, not, ◌&&◌, ◌||◌, Option, none, some, List, [], ◌∷◌, ◌++◌, leb, ◌==◌,
  if◌then◌else◌, is_empty, length,
}
use hey_proxy.Base.Text.{ends_with, codes, starts_with, equal_bytes, strip_bytes}
use hey_proxy.Framing.{strip_cr, add_line, data_part, without_space}

abbrev pub limit : ℕ
limit = 1024 * 1024

-- `bytes.split(|b| *b == b'\n')`; `cur` is the beginning of the first line.
unfoldable pub split : List ℕ → List ℕ → List (List ℕ)
split cur [] = cur ∷ []
split cur (b ∷ bs) =
    let ended = cur ∷ split [] bs in
    let longer = split (cur ++ b ∷ []) bs in if b == 10 then ended else longer

-- `bytes.split_inclusive(|b| *b == b'\n')`
unfoldable pub split_inclusive : List ℕ → List ℕ → List (List ℕ)
split_inclusive cur [] = if is_empty cur then [] else cur ∷ []
split_inclusive cur (b ∷ bs) =
    let ended = (cur ++ b ∷ []) ∷ split_inclusive [] bs in
    let longer = split_inclusive (cur ++ b ∷ []) bs in if b == 10 then ended else longer

-- The data of an event, from its lines.
unfoldable pub gather : List ℕ → List (List ℕ) → List ℕ
gather acc [] = acc
gather acc (line ∷ lines) = gather (add_line acc (strip_cr line)) lines

abbrev pub ending : List ℕ → List ℕ
ending line =
    if ends_with (codes "\r\n") line
    then codes "\r\n"
    else if ends_with (codes "\n") line
    then codes "\n"
    else []

-- The first data line of an event holds the new data, the others are dropped.
unfoldable pub replace_data : List ℕ → Bool → List (List ℕ) → List ℕ
replace_data rewritten inserted [] = []
replace_data rewritten inserted (line ∷ lines) =
    let first =
      codes "data: " ++ (rewritten ++ (ending line ++ replace_data rewritten true lines)) in
    let dropped = replace_data rewritten true lines in
    let kept = line ++ replace_data rewritten inserted lines in
    if starts_with (codes "data:") line then (if inserted then dropped else first) else kept

abbrev pub with_event : List ℕ → Option (List ℕ) → List ℕ
with_event original none = original
with_event original (some rewritten) = replace_data rewritten false (split_inclusive [] original)

pub record Sse : Type 0 where
  pub buffer : List ℕ
  pub overflow : Bool
  pub line_nonempty : Bool

abbrev pub default : Sse
default = record { buffer = []; overflow = false; line_nonempty = false }

-- The state and the output.
abbrev pub Fed : Type 0
Fed = Sse × List ℕ

abbrev pub push : Sse → ℕ → Fed
push s byte =
    if s.overflow then (s, byte ∷ []) else (record s { buffer = s.buffer ++ byte ∷ [] }, [])

abbrev pub spill : Fed → Fed
spill (s, output) =
    if leb limit (length s.buffer)
    then (record s { buffer = []; overflow = true }, output ++ s.buffer)
    else (s, output)

module _ (event : List ℕ → Option (List ℕ)) where
  -- What `finish` makes of the bytes of an event.
  unfoldable pub translate_frame : List ℕ → List ℕ
  translate_frame original = with_event original (event (gather [] (split [] original)))

  unfoldable pub finish : Sse → Fed
  finish s = (record s { buffer = [] }, translate_frame s.buffer)

  -- At the end of a blank line.
  abbrev pub end_event : Fed → Fed
  end_event (s, output) =
      if s.overflow
      then (record s { overflow = false }, output)
      else (record ((finish s).0) { overflow = false }, output ++ (finish s).1)

  abbrev pub end_line : Fed → Fed
  end_line (s, output) =
      let (t, out) = if s.line_nonempty then (s, output) else end_event (s, output) in
      (record t { line_nonempty = false }, out)

  abbrev pub after_byte : ℕ → Fed → Fed
  after_byte byte (s, output) =
      if byte == 10
      then end_line (s, output)
      else if byte == 13
      then (s, output)
      else (record s { line_nonempty = true }, output)

  -- One round of the loop of `feed`.
  unfoldable pub round : Sse → ℕ → Fed
  round s byte = spill (after_byte byte (push s byte))

  unfoldable pub feed : Sse → List ℕ → Fed
  feed s [] = (s, [])
  feed s (byte ∷ bytes) =
      let (t, output) = round s byte in let (u, more) = feed t bytes in (u, output ++ more)

  -- The response as it arrives, chunk by chunk, and its end.
  unfoldable pub feed_chunks : Sse → List (List ℕ) → List ℕ
  feed_chunks s [] = (finish s).1
  feed_chunks s (chunk ∷ chunks) = let (t, output) = feed s chunk in output ++ feed_chunks t chunks

-- Opens the translation, for the runs at concrete streams.
unfoldable pub stream_opened : Unit {0}
unfolding feed_chunks feed round finish translate_frame replace_data gather ends_with
    split_inclusive split strip_cr data_part without_space strip_bytes starts_with equal_bytes
stream_opened = tt
