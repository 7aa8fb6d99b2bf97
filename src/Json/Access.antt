-- ===== src/Json/Access.antt =====
-- The accessors of a JSON value: `get`, indexing, `pointer` and the `as_*` family.
use hey_proxy.Base.{
  ℕ, String, Bool, true, false, Option, none, some, List, [], ◌∷◌, if◌then◌else◌, str_eq,
}
use hey_proxy.Json.{
  unsigned, Value, null, bool, number, string, array, object, Fields, end, field, elements,
}

abbrev pub find_field : String → Fields → Option Value
find_field key end = none
find_field key (field k v fs) =
    let rest = find_field key fs in if str_eq k key then some v else rest

-- `value.get(key)`
abbrev pub get : Value → String → Option Value
get (object fs) key = find_field key fs
get _ key = none

abbrev pub or_null : Option Value → Value
or_null (some v) = v
or_null none = null

-- `value[key]` as it is read: a missing field is null.
abbrev pub index : Value → String → Value
index v key = or_null (get v key)

abbrev pub then_get : Option Value → String → Option Value
then_get (some v) key = get v key
then_get none key = none

-- `value.pointer("/a/b")`, for the paths of the source, none of which is a number
abbrev pub pointer : Value → List String → Option Value
pointer v [] = some v
pointer v (key ∷ []) = get v key
pointer v (key ∷ next ∷ []) = then_get (get v key) next
pointer v (key ∷ next ∷ more ∷ _) = then_get (then_get (get v key) next) more

abbrev pub as_str : Value → Option String
as_str (string s) = some s
as_str _ = none

abbrev pub as_u64 : Value → Option ℕ
as_u64 (number (unsigned n)) = some n
as_u64 _ = none

abbrev pub as_array : Value → Option (List Value)
as_array (array vs) = some (elements vs)
as_array _ = none

abbrev pub is_null : Value → Bool
is_null null = true
is_null _ = false

abbrev pub is_true : Value → Bool
is_true (bool b) = b
is_true _ = false

-- `value == "text"`
abbrev pub is_text : String → Value → Bool
is_text text (string s) = str_eq s text
is_text text _ = false

-- `option.is_some_and(test)`
abbrev pub is_some_and {ℓ} : {A : Type ℓ} → (A → Bool) → Option A → Bool
is_some_and test (some a) = test a
is_some_and test none = false

-- `matches!(text, Some("a" | "b"))`
abbrev pub one_of : List String → String → Bool
one_of [] text = false
one_of (name ∷ names) text = let rest = one_of names text in if str_eq text name then true else rest

-- `option.or_else(|| other)`
abbrev pub or_else {ℓ} : {A : Type ℓ} → Option A → Option A → Option A
or_else (some a) other = some a
or_else none other = other
