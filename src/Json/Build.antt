-- ===== src/Json/Build.antt =====
-- What `json!` builds, and the accessors that the converters of streams use besides those of Access.
use text.Mathlib.TextLemmas.{append-nil}
use hey_proxy.Base.{
  ℕ, String, Bool, false, true, Option, none, some, List, [], ◌∷◌, ◌++◌, ◌≡◌, refl, ap, ◌∙◌,
  if◌then◌else◌, get_elem?,
}
use hey_proxy.Base.Text.{join}
use hey_proxy.Json.{
  unsigned, Value, null, number, string, array, object, Fields, end, field, elements, items,
}
use hey_proxy.Json.Access.{or_null, as_array}
use hey_proxy.Json.Update.{put_field}

-- `json!({"key": value, …})`
abbrev pub fields : List (String × Value) → Fields
fields [] = end
fields ((key, v) ∷ rest) = field key v (fields rest)

abbrev pub obj : List (String × Value) → Value
obj entries = object (fields entries)

-- `json!(number)` and `json!([…])`
abbrev pub nat : ℕ → Value
nat n = number (unsigned n)

abbrev pub list : List Value → Value
list vs = array (items vs)

-- `value[i]` as it is read
abbrev pub at : Value → ℕ → Value
at (array vs) i = or_null (get_elem? (elements vs) i)
at _ i = null

-- `value.as_array().into_iter().flatten()`
abbrev pub or_empty {ℓ} : {A : Type ℓ} → Option (List A) → List A
or_empty (some vs) = vs
or_empty none = []

abbrev pub each : Value → List Value
each v = or_empty (as_array v)

-- `option.unwrap_or(default)`
abbrev pub unwrap_or {ℓ} : {A : Type ℓ} → Option A → A → A
unwrap_or (some a) default = a
unwrap_or none default = default

abbrev pub is_object : Value → Bool
is_object (object fs) = true
is_object _ = false

abbrev pub is_string : Value → Bool
is_string (string s) = true
is_string _ = false

abbrev pub is_some {ℓ} : {A : Type ℓ} → Option A → Bool
is_some (some a) = true
is_some none = false

abbrev pub is_blank_text : String → Bool
is_blank_text String.[] = true
is_blank_text (String.◌∷◌ c s) = false

pub join_blank : (text delta : String) → is_blank_text delta ≡ true → join text delta ≡ text
join_blank text String.[] e = append-nil text
join_blank text (String.◌∷◌ c delta) e = cc

-- `value.as_str().filter(|s| !s.is_empty())`
abbrev pub filled : Option String → Option String
filled (some s) = if is_blank_text s then none else some s
filled none = none

-- `.collect::<String>()`
abbrev pub joined : List String → String
joined [] = ""
joined (s ∷ ss) = join s (joined ss)

abbrev pub cons_some {ℓ} : {A : Type ℓ} → Option A → List A → List A
cons_some (some x) xs = x ∷ xs
cons_some none xs = xs

-- `iter().filter_map(f)`
abbrev pub filter_map {ℓ κ} : {A : Type ℓ} {B : Type κ} → (A → Option B) → List A → List B
filter_map f [] = []
filter_map f (x ∷ xs) = cons_some (f x) (filter_map f xs)

-- `value[key] = v`. The source writes to objects, and to null, which becomes one; a write to another
-- value would panic.
abbrev pub set_field : String → Value → Value → Value
set_field key v (object fs) = object (put_field key v fs)
set_field key v null = object (field key v end)
set_field key v other = other

cons_some-append {ℓ} :
    {A : Type ℓ} (o : Option A) (xs ys : List A) → cons_some o (xs ++ ys) ≡ cons_some o xs ++ ys
cons_some-append none xs ys = refl
cons_some-append (some x) xs ys = refl

pub filter_map-append {ℓ κ} :
    {A : Type ℓ} {B : Type κ} (f : A → Option B) (xs ys : List A)
    → filter_map f (xs ++ ys) ≡ filter_map f xs ++ filter_map f ys
filter_map-append f [] ys = refl
filter_map-append f (x ∷ xs) ys =
    ap (cons_some (f x)) (filter_map-append f xs ys)
    ∙ cons_some-append (f x) (filter_map f xs) (filter_map f ys)
