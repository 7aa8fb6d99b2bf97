-- ===== src/Partial.antt =====
-- src/gemini/partial.rs, `PartialCalls`: function calls whose arguments arrive in pieces. Parts leave in the
-- order in which they came; a call keeps an open slot in the queue until it is complete. An error ends the
-- stream, so the state after it is not modelled. The equality of JSON values is the parameter `same`.
pub mod Path
pub mod Slots
pub mod Refusals
pub mod Parts
pub mod Counts
pub mod Growth
pub mod Active
pub mod Limits
pub mod Segments
mod Examples
use hey_proxy.Base.{
  ℕ, zero, suc, ◌+◌, ◌-◌, String, Bool, true, false, not, ◌&&◌, ◌||◌, Option, none, some, List, [],
  ◌∷◌, ◌++◌, ltb, ◌==◌, if◌then◌else◌, any, is_empty, length, Result, ok, err, ◌>>=◌,
}
use hey_proxy.Json.{
  Value, null, bool, number, string, array, object, nil, cons, Fields, end, field, elements,
}
use hey_proxy.Json.Access.{get, index, as_str, is_true, is_null, is_some_and}
use hey_proxy.Json.Update.{put_field, map_some}
use hey_proxy.Capacity.{is_some, and_also}
use hey_proxy.Partial.Path.{PathError, parse_path, set_path}

-- A part, or the place of a call that is still active.
abbrev pub Slot : Type 0
Slot = Option ℕ × Option Value

pub record PartialCalls : Type 0 where
  pub active : List (ℕ × Value)
  pub queue : List Slot
  pub serial : ℕ
  pub allocated_slots : ℕ
  pub trace : List Value

abbrev pub default : PartialCalls
default = record { active = []; queue = []; serial = 0; allocated_slots = 0; trace = [] }

pub data PartialError : Type 0 where
  mixed_args duplicate_id unknown_id no_active_call conflicting_signatures not_array not_text
        invalid_value no_value missing_slot :
      PartialError
  path : PathError → PartialError

abbrev pub pending : PartialCalls → Bool
pending s = not (is_empty s.active)

-- The finished parts at the front of the queue, and the rest.
unfoldable pub drain : List Slot → List Value × List Slot
drain [] = ([], [])
drain ((id, some value) ∷ queue) = let (parts, rest) = drain queue in (value ∷ parts, rest)
drain ((id, none) ∷ queue) = ([], (id, none) ∷ queue)

abbrev pub Parted : Type 0
Parted = Result PartialError (PartialCalls × List Value)

abbrev pub drained : PartialCalls → PartialCalls × List Value
drained s = let (parts, rest) = drain s.queue in (record s { queue = rest }, parts)

-- `value[key] = v`, on an object; a target of this file always is one
abbrev set_field : String → Value → Value → Value
set_field key v (object fs) = object (put_field key v fs)
set_field key v value = value

-- The entry with a serial and its call, at an index, and the vector without it.
abbrev pub nth : List (ℕ × Value) → ℕ → Option (ℕ × Value)
nth [] i = none
nth (x ∷ xs) zero = some x
nth (x ∷ xs) (suc i) = nth xs i

abbrev pub remove_at : List (ℕ × Value) → ℕ → List (ℕ × Value)
remove_at [] i = []
remove_at (x ∷ xs) zero = xs
remove_at (x ∷ xs) (suc i) = x ∷ remove_at xs i

abbrev pub set_at : List (ℕ × Value) → ℕ → ℕ × Value → List (ℕ × Value)
set_at [] i y = []
set_at (x ∷ xs) zero y = y ∷ xs
set_at (x ∷ xs) (suc i) y = x ∷ set_at xs i y

-- The first slot with this serial is filled; none if there is none.
unfoldable pub fill : ℕ → Value → List Slot → Option (List Slot)
fill serial value [] = none
fill serial value ((none, content) ∷ queue) =
    map_some (λ q. (none, content) ∷ q) (fill serial value queue)
fill serial value ((some id, content) ∷ queue) =
    let rest = fill serial value queue in
    if id == serial
    then some ((some id, some value) ∷ queue)
    else map_some (λ q. (some id, content) ∷ q) rest

abbrev pub push_part : PartialCalls → Value → PartialCalls
push_part s part = record s { queue = s.queue ++ (none, some part) ∷ [] }

-- `json!({"name": name, "args": {}})`, with the identifier if there is one
abbrev call_object : Value → Option Value → Value
call_object name none = object (field "name" name (field "args" (object end) end))
call_object name (some id) =
    object (field "name" name (field "args" (object end) (field "id" id end)))

abbrev pub opened_call : PartialCalls → Value → PartialCalls
opened_call s start = record s {
  serial = suc s.serial;
  queue = s.queue ++ (some (suc s.serial), none) ∷ [];
  active = s.active ++ (suc s.serial, start) ∷ [];
}

abbrev not_null : Option Value → Option Value
not_null (some null) = none
not_null o = o

abbrev is_string : Value → Bool
is_string (string s) = true
is_string _ = false

abbrev is_number : Value → Bool
is_number (number n) = true
is_number _ = false

abbrev is_boolean : Value → Bool
is_boolean (bool b) = true
is_boolean _ = false

abbrev checked : Bool → Value → Result PartialError Value
checked valid v = if valid then ok v else err invalid_value

-- The value of one argument.
abbrev null_value : Option Value → Result PartialError Value
null_value (some _) = ok null
null_value none = err no_value

abbrev bool_value : Value → Option Value → Result PartialError Value
bool_value arg (some v) = checked (is_boolean v) v
bool_value arg none = null_value (get arg "nullValue")

abbrev number_value : Value → Option Value → Result PartialError Value
number_value arg (some v) = checked (is_number v) v
number_value arg none = bool_value arg (not_null (get arg "boolValue"))

abbrev string_value : Value → Option Value → Result PartialError Value
string_value arg (some v) = checked (is_string v) v
string_value arg none = number_value arg (not_null (get arg "numberValue"))

abbrev value_of : Value → Result PartialError Value
value_of arg = string_value arg (not_null (get arg "stringValue"))

abbrev path_of : Option String → Result PartialError String
path_of (some text) = ok text
path_of none = err not_text

abbrev lift_path : {A : Type 0} → Result PathError A → Result PartialError A
lift_path (ok a) = ok a
lift_path (err e) = err (path e)

-- The target, the slots allocated and whether more will come.
abbrev pub Progress : Type 0
Progress = Value × (ℕ × Bool)

abbrev apply_arg : Value → Progress → Result PartialError Progress
apply_arg arg (target, (slots, continuing)) = path_of (as_str (index arg "jsonPath")) >>= λ text.
    value_of arg >>= λ value. lift_path (parse_path text) >>= λ segments.
    lift_path (set_path segments (index (index target "functionCall") "args") value slots) >>= λ r.
    ok (
      set_field "functionCall" (set_field "args" r.0 (index target "functionCall")) target,
      (r.1, continuing || is_true (index arg "willContinue")),
    )

unfoldable pub apply_args : List Value → Progress → Result PartialError Progress
apply_args [] progress = ok progress
apply_args (arg ∷ args) progress = apply_arg arg progress >>= apply_args args

abbrev arguments : Option Value → Result PartialError (List Value)
arguments (some (array vs)) = ok (elements vs)
arguments (some _) = err not_array
arguments none = ok []

-- Behind the arguments: a complete call leaves `active` and fills its slot.
abbrev pub closed : PartialCalls → Option (List Slot) → Parted
closed s (some queue) = ok (drained (record s { queue = queue }))
closed s none = err missing_slot

abbrev pub settle : PartialCalls → ℕ → ℕ → Progress → Parted
settle s i serial (target, (slots, continuing)) =
    let going_on =
      drained (record s { active = set_at s.active i (serial, target); allocated_slots = slots }) in
    if continuing
    then ok going_on
    else closed (record s { active = remove_at s.active i; allocated_slots = slots })
        (fill serial target s.queue)

abbrev found : PartialError → Option ℕ → Result PartialError ℕ
found e (some i) = ok i
found e none = err e

abbrev is_partial : Value → Bool
is_partial call = is_some (get call "partialArgs") || is_true (index call "willContinue")

abbrev is_terminal : Value → Bool
is_terminal call =
    not (is_some (get call "name"))
    && not (is_some (get call "args"))
    && not (is_some (get call "partialArgs"))
    && not (is_true (index call "willContinue"))

module _ (same : Value → Value → Bool) where
  abbrev is_same : Option Value → Option Value → Bool
  is_same (some a) (some b) = same a b
  is_same none none = true
  is_same _ _ = false

  abbrev has_id : Value → ℕ × Value → Bool
  has_id id (serial, call) = is_same (get (index call "functionCall") "id") (some id)

  abbrev is_active : Option Value → List (ℕ × Value) → Bool
  is_active (some id) active = any (has_id id) active
  is_active none active = false

  -- A part with a name starts a call.
  abbrev start_call : Value → Value → Option Value → PartialCalls → Result PartialError PartialCalls
  start_call part call none s = ok s
  start_call part call (some name) s =
      if is_active (get call "id") s.active
      then err duplicate_id
      else ok (opened_call s (set_field "functionCall" (call_object name (get call "id")) part))

  unfoldable pub position : Value → List (ℕ × Value) → Option ℕ
  position id [] = none
  position id (x ∷ xs) =
      let later = map_some suc (position id xs) in if has_id id x then some zero else later

  abbrev last_index : List (ℕ × Value) → Option ℕ
  last_index [] = none
  last_index (x ∷ xs) = some (length xs)

  abbrev find_index : Option Value → List (ℕ × Value) → Result PartialError ℕ
  find_index (some id) active = found unknown_id (position id active)
  find_index none active = found no_active_call (last_index active)

  abbrev signed : Option Value → Value → Result PartialError Value
  signed none target = ok target
  signed (some signature) target =
      if is_some_and (λ s. not (same s signature)) (get target "thoughtSignature")
      then err conflicting_signatures
      else ok (set_field "thoughtSignature" signature target)

  abbrev at_target : PartialCalls → ℕ → Value → Value → Option (ℕ × Value) → Parted
  at_target s i part call none = err no_active_call
  at_target s i part call (some (serial, target)) =
      signed (get part "thoughtSignature") target >>= λ signed_target.
      arguments (get call "partialArgs") >>= λ args.
      apply_args args (signed_target, (s.allocated_slots, is_true (index call "willContinue")))
      >>= settle s i serial

  -- A part of a call that is, or may be, incomplete.
  abbrev pub partial_part : Value → Value → PartialCalls → Parted
  partial_part part call s =
      if is_some (get call "args")
      then err mixed_args
      else start_call part call (get call "name") (record s { trace = s.trace ++ part ∷ [] })
        >>= λ t.
            find_index (get call "id") t.active >>= λ i. at_target t i part call (nth t.active i)

  abbrev pub of_call : PartialCalls → Value → Option Value → Parted
  of_call s part none = ok (drained (push_part s part))
  of_call s part (some call) =
      let incomplete = partial_part part call s in
      if not (is_partial call) && not (is_terminal call)
      then ok (drained (push_part s part))
      else incomplete

  unfoldable pub part : PartialCalls → Value → Parted
  part s value = of_call s value (get value "functionCall")

  -- The parts of a stream, one after another.
  unfoldable pub parts : PartialCalls → List Value → Parted
  parts s [] = ok (s, [])
  parts s (value ∷ values) = part s value >>= λ r. parts r.0 values >>= λ q. ok (q.0, r.1 ++ q.1)

-- Opens the calls, for the runs at concrete streams.
unfoldable pub partial_opened : Unit {0}
unfolding parts part position apply_args fill drain put_field
partial_opened = tt
