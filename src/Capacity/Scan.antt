-- ===== src/Capacity/Scan.antt =====
-- src/proxy/capacity.rs, `prelude_sse`: what the beginning of a response stream decides. The decision on
-- the data of one event is the parameter `prelude_event`, as `Capacity.prelude_event` makes it.
pub mod Refines
use hey_proxy.Base.{
  ℕ, Bool, true, false, not, ◌&&◌, ◌||◌, Option, none, some, List, [], ◌∷◌, ◌++◌, leb, ◌==◌,
  if◌then◌else◌, is_empty, length, last, but_last,
}
use hey_proxy.Base.Text.{ends_with, codes}
use hey_proxy.Framing.{strip_cr, add_line}
use hey_proxy.Capacity.{Prelude, waiting, started, refused}
use hey_proxy.Capacity.Stream.{limit, split_inclusive}

abbrev pub is_waiting : Prelude → Bool
is_waiting waiting = true
is_waiting _ = false

-- `line.strip_suffix(b"\n").unwrap_or(line)`
unfoldable pub strip_newline : List ℕ → List ℕ
strip_newline line = elim (last line) [
  | some c ↦ if c == 10 then but_last line else line
  | none ↦ line
]

module _ (prelude_event : List ℕ → Prelude) where
  -- Behind the loop, which may have been left at an unfinished line.
  abbrev pub at_end : Bool → List ℕ → Prelude
  at_end complete acc =
      if complete then (if is_empty acc then started else prelude_event acc) else waiting

  unfoldable pub scan : Bool → List ℕ → List (List ℕ) → Prelude
  scan complete acc [] = at_end complete acc
  scan complete acc (line ∷ lines) =
      let content = strip_cr (strip_newline line) in
      let same = scan complete acc lines in
      let cleared = scan complete [] lines in
      let added = scan complete (add_line acc content) lines in
      let result = prelude_event acc in
      if not (ends_with (codes "\n") line) && not complete
      then at_end complete acc
      else if is_empty content
      then (if is_empty acc then same else if is_waiting result then cleared else result)
      else added

  unfoldable pub prelude_sse : List ℕ → Bool → Prelude
  prelude_sse bytes complete =
      if leb limit (length bytes) then started else scan complete [] (split_inclusive [] bytes)
