-- ===== src/Partial/Path.antt =====
-- src/gemini/partial.rs, `parse_path` and `set_path`: the JSON paths of partial arguments. A text is read
-- character by character; the messages of the errors are not modelled.
use Prim.Native.Char.{Char, code}
use hey_proxy.Base.{
  ℕ, zero, suc, ◌+◌, ◌-◌, ◌*◌, String, ◌&&◌, ◌||◌, Option, none, some, List, [], ◌∷◌, ◌++◌, ltb,
  leb, ◌==◌, if◌then◌else◌, length, str_eq, Result, ok, err, ◌>>=◌,
}
use hey_proxy.Base.Text.{join}
use hey_proxy.Json.{Value, null, string, array, object, Fields, end, elements, items}
use hey_proxy.Json.Access.{find_field, or_null}
use hey_proxy.Json.Update.{put_field}

pub data Segment : Type 0 where
  key : String → Segment
  at : ℕ → Segment  -- `Index` in the source

pub data PathError : Type 0 where
  not_rooted empty_key bad_quoted bad_index too_large bad_path too_deep root : PathError
  overwrites not_object not_array too_many_slots out_of_fuel : PathError

-- The name up to the next `.` or `[`, and the text behind it.
unfoldable pub take_name : String → String × String
take_name String.[] = ("", String.[])
take_name (String.◌∷◌ c s) =
    let (name, rest) = take_name s in
    if code c == 46 || code c == 91 then ("", String.◌∷◌ c s) else (String.◌∷◌ c name, rest)

unfoldable pub take_digits : String → ℕ → Option ℕ → Option ℕ × String
take_digits String.[] value read = (read, String.[])
take_digits (String.◌∷◌ c s) value read =
    let next = value * 10 + (code c - 48) in
    let more = take_digits s next (some next) in
    if leb 48 (code c) && leb (code c) 57 then more else (read, String.◌∷◌ c s)

-- A character in front of what was read.
abbrev begin : Char → Option (String × String) → Option (String × String)
begin c (some (name, rest)) = some (String.◌∷◌ c name, rest)
begin c none = none

-- A quoted key, in which `\` keeps the next character, and the text behind the quote.
unfoldable pub take_quoted : ℕ → String → Option (String × String)
take_quoted quote String.[] = none
take_quoted quote (String.◌∷◌ c String.[]) = if code c == quote then some ("", String.[]) else none
take_quoted quote (String.◌∷◌ c (String.◌∷◌ d s)) =
    let escaped = take_quoted quote s in
    let plain = take_quoted quote (String.◌∷◌ d s) in
    if code c == quote
    then some ("", String.◌∷◌ d s)
    else if code c == 92
    then begin d escaped
    else begin c plain

abbrev pub closed : PathError → Segment → String → Result PathError (Segment × String)
closed e segment String.[] = err e
closed e segment (String.◌∷◌ c s) = if code c == 93 then ok (segment, s) else err e

abbrev pub close_quoted : Option (String × String) → Result PathError (Segment × String)
close_quoted (some (name, rest)) = closed bad_quoted (key name) rest
close_quoted none = err bad_quoted

abbrev pub close_index : Option ℕ × String → Result PathError (Segment × String)
close_index (none, rest) = err bad_index
close_index (some i, rest) =
    closed bad_index (at i) rest >>= λ r. if ltb 65535 i then err too_large else ok r

-- Behind `[`.
abbrev pub bracket : String → Result PathError (Segment × String)
bracket String.[] = err bad_index
bracket (String.◌∷◌ c s) =
    if code c == 39 || code c == 34
    then close_quoted (take_quoted (code c) s)
    else close_index (take_digits (String.◌∷◌ c s) 0 none)

abbrev pub dotted : String × String → Result PathError (Segment × String)
dotted (name, rest) = if str_eq name "" then err empty_key else ok (key name, rest)

abbrev pub one_segment : ℕ → String → Result PathError (Segment × String)
one_segment c s =
    if c == 46 then dotted (take_name s) else if c == 91 then bracket s else err bad_path

abbrev pub max_segments : ℕ
max_segments = 128

-- The loop of `parse_path`; `count` segments have been read.
unfoldable pub parse_segments : ℕ → ℕ → String → Result PathError (List Segment)
parse_segments zero count s = err out_of_fuel
parse_segments (suc fuel) count String.[] = ok []
parse_segments (suc fuel) count (String.◌∷◌ c s) = one_segment (code c) s >>= λ r.
    if ltb max_segments (suc count)
    then err too_deep
    else parse_segments fuel (suc count) r.1 >>= λ segments. ok (r.0 ∷ segments)

abbrev pub not_root : List Segment → Result PathError (List Segment)
not_root [] = err root
not_root (segment ∷ segments) = ok (segment ∷ segments)

unfoldable pub parse_path : String → Result PathError (List Segment)
parse_path String.[] = err not_rooted
parse_path (String.◌∷◌ c s) =
    if code c == 36 then parse_segments (suc max_segments) 0 s >>= not_root else err not_rooted

abbrev pub max_slots : ℕ
max_slots = 262144

abbrev pub nulls : ℕ → List Value
nulls zero = []
nulls (suc n) = null ∷ nulls n

abbrev pub nth_or_null : List Value → ℕ → Value
nth_or_null [] i = null
nth_or_null (v ∷ vs) zero = v
nth_or_null (v ∷ vs) (suc i) = nth_or_null vs i

abbrev pub set_nth : List Value → ℕ → Value → List Value
set_nth [] i w = []
set_nth (v ∷ vs) zero w = w ∷ vs
set_nth (v ∷ vs) (suc i) w = v ∷ set_nth vs i w

-- `array.resize(index + 1, Value::Null)` with its limit: the slots allocated afterwards, and the array.
abbrev pub grow : ℕ → List Value → ℕ → Result PathError (ℕ × List Value)
grow index vs slots =
    let added = suc index - length vs in
    if leb (length vs) index
    then (if ltb (max_slots - slots) added
        then err too_many_slots
        else ok (slots + added, vs ++ nulls added))
    else ok (slots, vs)

-- At the end of the path.
abbrev pub put_leaf : Value → Value → Result PathError Value
put_leaf (string previous) (string fragment) = ok (string (join previous fragment))
put_leaf null value = ok value
put_leaf target value = err overwrites

abbrev pub as_fields : Value → Result PathError Fields
as_fields null = ok end
as_fields (object fs) = ok fs
as_fields _ = err not_object

abbrev pub as_elements : Value → Result PathError (List Value)
as_elements null = ok []
as_elements (array vs) = ok (elements vs)
as_elements _ = err not_array

-- The new target, and the slots allocated so far.
unfoldable pub set_path : List Segment → Value → Value → ℕ → Result PathError (Value × ℕ)
set_path [] target value slots = put_leaf target value >>= λ v. ok (v, slots)
set_path (key k ∷ path) target value slots = as_fields target >>= λ fs.
    set_path path (or_null (find_field k fs)) value slots >>= λ r.
    ok (object (put_field k r.0 fs), r.1)
set_path (at i ∷ path) target value slots = as_elements target >>= λ vs. grow i vs slots >>= λ g.
    set_path path (nth_or_null g.1 i) value g.0 >>= λ r. ok (array (items (set_nth g.1 i r.0)), r.1)

-- Opens the paths, for the runs at concrete texts.
unfoldable pub path_opened : Unit {0}
unfolding parse_path parse_segments take_name take_digits take_quoted set_path put_field
path_opened = tt
