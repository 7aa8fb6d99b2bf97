-- ===== src/Partial/Refusals.antt =====
-- src/gemini/partial.rs, `part`: what reads a part never refuses it for a missing slot.
use hey_proxy.Base.{
  String, ℕ, Bool, true, false, ◌||◌, Option, none, some, List, [], ◌∷◌, if◌then◌else◌, Result, ok,
  err, ◌>>=◌,
}
use hey_proxy.Json.{Value, null, bool, number, string, array, object}
use hey_proxy.Json.Access.{get, index, is_true, as_str}
use hey_proxy.Partial.Path.{Segment, PathError, parse_path, set_path}
use hey_proxy.Partial.{
  PartialError, missing_slot, Progress, apply_args, set_field, not_null, is_string, is_number,
  is_boolean, arguments, value_of, apply_arg, lift_path, path_of, null_value, bool_value,
  number_value, string_value, checked, found,
}

-- Any error but that of a missing slot.
abbrev pub Benign : PartialError → Type 0
Benign missing_slot = ⊥
Benign _ = Unit {0}

-- Any result but the error of a missing slot.
abbrev pub Found : {A : Type 0} → Result PartialError A → Type 0
Found (ok a) = Unit {0}
Found (err e) = Benign e

pub Found-bind :
    {A B : Type 0} (m : Result PartialError A) (f : A → Result PartialError B)
    → Found m
    → ((a : A) → Found (f a))
    → Found (m >>= f)
Found-bind (ok a) f h k = k a
Found-bind (err e) f h k = h

pub found-Found : (e : PartialError) (o : Option ℕ) → Benign e → Found (found e o)
found-Found e (some i) h = tt
found-Found e none h = h

pub checked-Found : (valid : Bool) (v : Value) → Found (checked valid v)
checked-Found true v = tt
checked-Found false v = tt

pub path_of-Found : (o : Option String) → Found (path_of o)
path_of-Found (some text) = tt
path_of-Found none = tt

pub unless-Found :
    (e : PartialError) (v : Value) (b : Bool) → Benign e → Found (if b then err e else ok v)
unless-Found e v true h = h
unless-Found e v false h = tt

pub value_of-Found : (arg : Value) → Found (value_of arg)
value_of-Found arg = string_value-Found (not_null (get arg "stringValue"))
  where
    null_value-Found : (o : Option Value) → Found (null_value o)
    null_value-Found (some v) = tt
    null_value-Found none = tt

    bool_value-Found : (o : Option Value) → Found (bool_value arg o)
    bool_value-Found (some v) = checked-Found (is_boolean v) v
    bool_value-Found none = null_value-Found (get arg "nullValue")

    number_value-Found : (o : Option Value) → Found (number_value arg o)
    number_value-Found (some v) = checked-Found (is_number v) v
    number_value-Found none = bool_value-Found (not_null (get arg "boolValue"))

    string_value-Found : (o : Option Value) → Found (string_value arg o)
    string_value-Found (some v) = checked-Found (is_string v) v
    string_value-Found none = number_value-Found (not_null (get arg "numberValue"))

pub lift_path-Found : {A : Type 0} (r : Result PathError A) → Found (lift_path r)
lift_path-Found (ok a) = tt
lift_path-Found (err e) = tt

pub apply_arg-Found : (arg : Value) (p : Progress) → Found (apply_arg arg p)
apply_arg-Found arg (target, (slots, continuing)) =
    let args = index (index target "functionCall") "args" in
    let next : Value × ℕ → Result PartialError Progress = λ r. ok (
      set_field "functionCall" (set_field "args" r.0 (index target "functionCall")) target,
      (r.1, continuing || is_true (index arg "willContinue")),
    ) in
    let setting : Value → List Segment → Result PartialError Progress =
      λ value segments. lift_path (set_path segments args value slots) >>= next in
    let parsing : String → Value → Result PartialError Progress =
      λ text value. lift_path (parse_path text) >>= setting value in
    Found-bind (path_of (as_str (index arg "jsonPath"))) (λ text. value_of arg >>= parsing text)
      (path_of-Found (as_str (index arg "jsonPath")))
      λ text. Found-bind (value_of arg) (parsing text) (value_of-Found arg) λ value.
        Found-bind (lift_path (parse_path text)) (setting value) (lift_path-Found (parse_path text))
          λ segments.
            Found-bind (lift_path (set_path segments args value slots)) next
              (lift_path-Found (set_path segments args value slots)) (λ r. tt)

pub apply_args-Found : (args : List Value) (p : Progress) → Found (apply_args args p)
unfolding apply_args
apply_args-Found [] p = tt
apply_args-Found (arg ∷ args) p =
    Found-bind (apply_arg arg p) (apply_args args) (apply_arg-Found arg p) (apply_args-Found args)

pub arguments-Found : (o : Option Value) → Found (arguments o)
arguments-Found none = tt
arguments-Found (some (array vs)) = tt
arguments-Found (some null) = tt
arguments-Found (some (bool b)) = tt
arguments-Found (some (number n)) = tt
arguments-Found (some (string s)) = tt
arguments-Found (some (object fs)) = tt
