-- ===== src/Partial/Growth.antt =====
-- src/gemini/partial.rs, the arguments of a call: what they allocate is counted.
use mathlib.Core.Path.{subst}
use hey_proxy.Base.{
  ℕ, ◌+◌, ◌≤◌, ◌≡◌, refl, String, ap, Bool, true, false, ◌||◌, Option, none, some, List, [], ◌∷◌,
  if◌then◌else◌, arith, Result, ok, err, ◌>>=◌,
}
use hey_proxy.Json.{Value, bool, number, string, object}
use hey_proxy.Json.Access.{get, index, as_str, is_true, or_null}
use hey_proxy.Json.Update.{find-put}
use hey_proxy.Partial.{
  PartialError, Progress, apply_arg, apply_args, set_field, value_of, string_value, number_value,
  bool_value, null_value, not_null, path_of, lift_path,
}
use hey_proxy.Partial.Path.{Segment, PathError, max_slots, parse_path, set_path}
use hey_proxy.Partial.Counts.{slots_of, set_path-IsCounted, IsCounted}

-- The elements of the arrays in a call's arguments, and in those of all active calls.
abbrev pub args_slots : Value → ℕ
args_slots target = slots_of (index (index target "functionCall") "args")

abbrev pub active_slots : List (ℕ × Value) → ℕ
active_slots [] = 0
active_slots ((serial, call) ∷ calls) = args_slots call + active_slots calls

abbrev pub Holds : {E A : Type 0} → (A → Type 0) → Result E A → Type 0
Holds P (ok a) = P a
Holds P (err e) = Unit {0}

pub Holds-bind :
    {E A B : Type 0} (P : B → Type 0) (m : Result E A) (f : A → Result E B)
    → ((a : A) → m ≡ ok a → Holds P (f a))
    → Holds P (m >>= f)
Holds-bind P (ok a) f h = h a refl
Holds-bind P (err e) f h = tt

pub choose-Holds :
    {E A : Type 0} (P : A → Type 0) (x y : Result E A) (b : Bool)
    → Holds P x
    → Holds P y
    → Holds P (if b then x else y)
choose-Holds P x y true h k = h
choose-Holds P x y false h k = k

-- The values of arguments are not arrays or objects.
abbrev IsScalar : Value → Type 0
IsScalar v = slots_of v ≡ 0

null_value-IsScalar : (o : Option Value) → Holds IsScalar (null_value o)
null_value-IsScalar (some v) = refl
null_value-IsScalar none = tt

bool_value-IsScalar : (arg : Value) (o : Option Value) → Holds IsScalar (bool_value arg o)
bool_value-IsScalar arg (some (bool b)) = refl
bool_value-IsScalar arg (some _) = tt
bool_value-IsScalar arg none = null_value-IsScalar (get arg "nullValue")

number_value-IsScalar : (arg : Value) (o : Option Value) → Holds IsScalar (number_value arg o)
number_value-IsScalar arg (some (number n)) = refl
number_value-IsScalar arg (some _) = tt
number_value-IsScalar arg none = bool_value-IsScalar arg (not_null (get arg "boolValue"))

string_value-IsScalar : (arg : Value) (o : Option Value) → Holds IsScalar (string_value arg o)
string_value-IsScalar arg (some (string s)) = refl
string_value-IsScalar arg (some _) = tt
string_value-IsScalar arg none = number_value-IsScalar arg (not_null (get arg "numberValue"))

value_of-IsScalar : (arg : Value) → Holds IsScalar (value_of arg)
value_of-IsScalar arg = string_value-IsScalar arg (not_null (get arg "stringValue"))

-- A field that was set, in an object or in a value that has no fields.
set_field-slots :
    (key : String) (v w : Value) → slots_of (index (set_field key v w) key) ≤ slots_of v
set_field-slots key v (object fs) =
    let same = ap (λ o. slots_of (or_null o)) (find-put key v fs) in omega (arith, same)
set_field-slots key v _ = omega arith

set_args-slots :
    (target args : Value)
    → args_slots
        (set_field "functionCall" (set_field "args" args (index target "functionCall")) target)
      ≤ slots_of args
set_args-slots (object fs) args =
    let call = set_field "args" args (index (object fs) "functionCall") in
    let same = ap (λ o. slots_of (index (or_null o) "args")) (find-put "functionCall" call fs) in
    omega (arith, same, set_field-slots "args" args (index (object fs) "functionCall"))
set_args-slots _ args = omega arith

-- What the arguments allocate is counted, and the count keeps to the limit.
pub record IsGrown (target : Value) (slots : ℕ) (p : Progress) : Type 0 where
  pub counted : args_slots p.0 + slots ≤ args_slots target + p.1.0
  pub limited : slots ≤ max_slots → p.1.0 ≤ max_slots

set_path-IsGrown :
    (target value : Value) (slots : ℕ) (more : Bool) (path : List Segment)
    → IsScalar value
    → Holds (IsGrown target slots) (
        lift_path (set_path path (index (index target "functionCall") "args") value slots) >>= λ r.
        ok (
          set_field "functionCall" (set_field "args" r.0 (index target "functionCall")) target,
          (r.1, more),
        ))
set_path-IsGrown target value slots more path scalar =
    let args = index (index target "functionCall") "args" in
    placed (set_path path args value slots) (set_path-IsCounted path args value slots)
  where
    placed :
        (m : Result PathError (Value × ℕ))
        → IsCounted (index (index target "functionCall") "args") value slots m
        → Holds (IsGrown target slots) (
            lift_path m >>= λ r. ok (
              set_field "functionCall" (set_field "args" r.0 (index target "functionCall")) target,
              (r.1, more),
            ))
    placed (ok (new, after)) (counts, bound) = record {
      counted = omega (arith, counts, scalar, set_args-slots target new);
      limited = bound;
    }
    placed (err e) h = tt

apply_arg-IsGrown :
    (arg target : Value) (slots : ℕ) (more : Bool)
    → Holds (IsGrown target slots) (apply_arg arg (target, (slots, more)))
apply_arg-IsGrown arg target slots more =
    Holds-bind (IsGrown target slots) (path_of (as_str (index arg "jsonPath"))) _ λ text _.
      Holds-bind (IsGrown target slots) (value_of arg) _ λ value e.
        Holds-bind (IsGrown target slots) (lift_path (parse_path text)) _ λ path _.
          set_path-IsGrown target value slots (more || is_true (index arg "willContinue")) path
            (subst (Holds IsScalar) e (value_of-IsScalar arg))

pub apply_args-IsGrown :
    (args : List Value) (target : Value) (slots : ℕ) (more : Bool)
    → Holds (IsGrown target slots) (apply_args args (target, (slots, more)))
unfolding apply_args
apply_args-IsGrown [] target slots more = record { counted = omega arith; limited = λ h. h }
apply_args-IsGrown (arg ∷ args) target slots more =
    Holds-bind (IsGrown target slots) (apply_arg arg (target, (slots, more))) (apply_args args)
      λ p e.
        let first =
          subst (Holds (IsGrown target slots)) e (apply_arg-IsGrown arg target slots more) in
        behind p first (apply_args args p) (apply_args-IsGrown args p.0 p.1.0 p.1.1)
  where
    behind :
        (p : Progress)
        → IsGrown target slots p
        → (m : Result PartialError Progress) → Holds (IsGrown p.0 p.1.0) m
        → Holds (IsGrown target slots) m
    behind p first (ok q) rest = record {
      counted = omega (arith, first.counted, rest.counted);
      limited = λ h. rest.limited (first.limited h);
    }
    behind p first (err e) rest = tt
