-- ===== src/Fallback/Scanner.antt =====
-- src/fallback.rs, `SsePrelude`: the incremental scanner of the first events of a stream.
pub mod Bounds
pub mod Refines
use hey_proxy.Base.{
  ℕ, suc, ◌+◌, ◌*◌, Bool, true, false, Option, none, some, List, [], ◌∷◌, ◌++◌, leb, ◌==◌,
  if◌then◌else◌, is_empty,
}
use hey_proxy.Base.Text.{strip_bytes}
use hey_proxy.Framing.{strip_cr, add_line, data_part, without_space}
use hey_proxy.Json.{Value}
use hey_proxy.Fallback.Policy.{Prelude, waiting, committed, refused, prelude_event}

abbrev pub max_prelude : ℕ
max_prelude = 256 * 1024

pub record SsePrelude : Type 0 where
  pub line : List ℕ
  pub acc : List ℕ  -- `data` in the source
  pub total : ℕ
  pub gemini : Bool
  pub decision : Prelude

abbrev pub new : Bool → SsePrelude
new gemini = record { line = []; acc = []; total = 0; gemini = gemini; decision = waiting }

module _ (from_slice : List ℕ → Option Value) where
  -- At a newline: the line loses its `\r`; a blank one ends the event, any other may be data.
  unfoldable pub end_line : SsePrelude → SsePrelude
  end_line s =
      if is_empty (strip_cr s.line)
      then (if is_empty s.acc
          then record s { line = [] }
          else record s { line = []; acc = []; decision = prelude_event from_slice s.acc s.gemini })
      else record s { line = []; acc = add_line s.acc (strip_cr s.line) }

  -- One round of the loop of `feed`; a decision that is made stays.
  unfoldable pub advance : Prelude → SsePrelude → ℕ → SsePrelude
  advance committed s byte = s
  advance refused s byte = s
  advance waiting s byte =
      let counted = record s { total = suc s.total } in
      if leb max_prelude (suc s.total)
      then record counted { decision = committed }
      else if byte == 10
      then end_line counted
      else record counted { line = s.line ++ byte ∷ [] }

  unfoldable pub feed : SsePrelude → List ℕ → SsePrelude
  feed s [] = s
  feed s (byte ∷ bytes) = feed (advance s.decision s byte) bytes

  -- The stream as it arrives, chunk by chunk.
  unfoldable pub feed_chunks : SsePrelude → List (List ℕ) → SsePrelude
  feed_chunks s [] = s
  feed_chunks s (chunk ∷ chunks) = feed_chunks (feed s chunk) chunks

-- Opens the scanner, for the runs at concrete streams.
unfoldable pub scanner_opened : Unit {0}
unfolding feed_chunks feed advance end_line strip_cr data_part without_space strip_bytes
scanner_opened = tt
