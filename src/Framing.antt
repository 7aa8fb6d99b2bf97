-- ===== src/Framing.antt =====
-- The framing of server-sent events, as an abstract description that the scanners of
-- src/fallback.rs and src/proxy/capacity.rs are held against: bytes are cut into lines, the `data:`
-- fields between two blank lines are joined, and the first event that is not waited on decides.
pub mod Sizes
use mathlib.Core.Option.{get_or}
use hey_proxy.Base.{
  ℕ, Bool, true, false, Option, none, some, List, [], ◌∷◌, ◌++◌, ◌==◌, if◌then◌else◌, last,
  but_last, is_empty, String,
}
use hey_proxy.Base.Text.{codes, strip_bytes}

-- A line without its `\r`.
unfoldable pub strip_cr : List ℕ → List ℕ
strip_cr line = elim (last line) [ some c ↦ if c == 13 then but_last line else line | none ↦ line ]

-- `part.strip_prefix(b" ").unwrap_or(part)`
unfoldable pub without_space : List ℕ → List ℕ
without_space part = get_or (strip_bytes (codes " ") part) part

abbrev pub map_part : Option (List ℕ) → Option (List ℕ)
map_part (some part) = some (without_space part)
map_part none = none

-- `line.strip_prefix(b"data:")`, then one space less.
unfoldable pub data_part : List ℕ → Option (List ℕ)
data_part line = map_part (strip_bytes (codes "data:") line)

-- `if !data.is_empty() { data.push(b'\n') }`, then the part.
abbrev pub join_part : List ℕ → List ℕ → List ℕ
join_part [] part = part
join_part (c ∷ cs) part = (c ∷ cs) ++ (10 ∷ part)

abbrev pub add_part : List ℕ → Option (List ℕ) → List ℕ
add_part acc (some part) = join_part acc part
add_part acc none = acc

-- The data of an event after one more line of it.
abbrev pub add_line : List ℕ → List ℕ → List ℕ
add_line acc line = add_part acc (data_part line)

-- The lines that a newline has ended; `cur` is the beginning of the first.
unfoldable pub complete_lines : List ℕ → List ℕ → List (List ℕ)
complete_lines cur [] = []
complete_lines cur (b ∷ bs) =
    let ended = cur ∷ complete_lines [] bs in
    let longer = complete_lines (cur ++ b ∷ []) bs in if b == 10 then ended else longer

module _ {D : Type 0} (classify : List ℕ → D) (is_waiting : D → Bool) (waiting : D) where
  -- What the lines decide, where `acc` is the data of the event so far.
  unfoldable pub decide_lines : List ℕ → List (List ℕ) → D
  decide_lines acc [] = waiting
  decide_lines acc (line ∷ lines) =
      let fresh = decide_lines [] lines in
      let more = decide_lines (add_line acc (strip_cr line)) lines in
      let decision = classify acc in
      if is_empty (strip_cr line)
      then (if is_empty acc then fresh else if is_waiting decision then fresh else decision)
      else more
