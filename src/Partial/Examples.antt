-- ===== src/Partial/Examples.antt =====
-- Runs of src/gemini/partial.rs at concrete streams.
use hey_proxy.Base.{
  ◌≤◌, ◌≡◌, ◌≢◌, refl, String, Bool, true, false, some, none, List, [], ◌∷◌, ok, err, str_eq,
}
use hey_proxy.Json.{Value, null, bool, string, array, object, nil, cons, Fields, end, field}
use hey_proxy.Partial.{PartialCalls, default, missing_slot, parts, partial_opened}
use hey_proxy.Partial.Path.{key, at, parse_path, set_path, max_slots, bad_path, path_opened}
use hey_proxy.Partial.Parts.{parts-ne-missing_slot}
use hey_proxy.Partial.Growth.{active_slots}
use hey_proxy.Partial.Limits.{parts_bounded}

path_refused : parse_path "$a" ≡ err bad_path
unfolding path_opened
path_refused = refl

abbrev grown : Value
grown = object (field "a" (array (cons null (cons (string "x") nil))) end)

leaf_set : set_path (key "a" ∷ at 1 ∷ []) null (string "x") 5 ≡ ok (grown, 7)
unfolding path_opened
leaf_set = refl

-- Equality of texts is enough here.
abbrev same : Value → Value → Bool
same (string s) (string t) = str_eq s t
same _ _ = false

abbrev call : Fields → Value
call fs = object (field "functionCall" (object fs) end)

abbrev text : Value
text = object (field "text" (string "t") end)

abbrev argument : String → Value
argument piece = object (field "jsonPath" (string "$.a") (field "stringValue" (string piece) end))

abbrev stream : List Value
stream =
    call (field "name" (string "f") (field "willContinue" (bool true) end))
    ∷ text
    ∷ call (
        field "partialArgs" (array (cons (argument "x") nil))
          (field "willContinue" (bool true) end))
    ∷ call (field "partialArgs" (array (cons (argument "y") nil)) end)
    ∷ []

abbrev completed : Value
completed =
    call (field "name" (string "f") (field "args" (object (field "a" (string "xy") end)) end))

abbrev after : PartialCalls
after = record {
  active = [];
  queue = [];
  serial = 1;
  allocated_slots = 0;
  trace =
      call (field "name" (string "f") (field "willContinue" (bool true) end))
      ∷ call (
          field "partialArgs" (array (cons (argument "x") nil))
            (field "willContinue" (bool true) end))
      ∷ call (field "partialArgs" (array (cons (argument "y") nil)) end)
      ∷ [];
}

parts-ne-missing_slot_example : parts same default stream ≢ err missing_slot
parts-ne-missing_slot_example = parts-ne-missing_slot same stream

-- A call whose array is still growing.
abbrev growing_stream : List Value
growing_stream =
    call (field "name" (string "f") (field "willContinue" (bool true) end))
    ∷ call (
        field "partialArgs"
          (array (
            cons
              (object (field "jsonPath" (string "$.a[2]") (field "stringValue" (string "x") end)))
              nil))
          (field "willContinue" (bool true) end))
    ∷ []

abbrev growing : Value
growing = call (
    field "name" (string "f") (
      field "args" (object (field "a" (array (cons null (cons null (cons (string "x") nil)))) end))
        end))

abbrev after_growth : PartialCalls
after_growth = record {
  active = (1, growing) ∷ [];
  queue = (some 1, none) ∷ [];
  serial = 1;
  allocated_slots = 3;
  trace = growing_stream;
}

growing_parts : parts same default growing_stream ≡ ok (after_growth, [])
unfolding partial_opened path_opened
growing_parts = refl

three_slots : active_slots ((1, growing) ∷ []) ≡ 3
three_slots = refl

parts_bounded_example : (active_slots ((1, growing) ∷ []) ≤ 3) × (3 ≤ max_slots)
parts_bounded_example = parts_bounded same growing_stream after_growth [] growing_parts
