-- ===== src/Json/Update.antt =====
-- Changes of a JSON value: `value[key] = v`, and what `pointer_mut` and `get_mut` give access to.
-- The order of an object's fields is not that of the source (which keeps them by key): no accessor
-- sees it.
use mathlib.Core.Option.{some-injective}
use mathlib.Core.Path.{subst}
use hey_proxy.Base.{
  eq_iff, sym, ◌≡◌, refl, ap, ◌∙◌, String, true, false, Option, none, some, List, [], ◌∷◌,
  if◌then◌else◌, str_eq, Bool-cases, inl, inr,
}
use hey_proxy.Json.{Value, null, bool, number, string, array, object, Fields, end, field}
use hey_proxy.Json.Access.{find_field}

-- `option.map(f)`
abbrev pub map_some : {A B : Type 0} → (A → B) → Option A → Option B
map_some f (some a) = some (f a)
map_some f none = none

-- `value[key] = v`, where `value` is an object
unfoldable pub put_field : String → Value → Fields → Fields
put_field key v end = field key v end
put_field key v (field k w fs) =
    let rest = put_field key v fs in if str_eq k key then field k v fs else field k w rest

-- `object.remove(key)`
unfoldable pub remove_field : String → Fields → Fields
remove_field key end = end
remove_field key (field k v fs) =
    let rest = remove_field key fs in if str_eq k key then rest else field k v rest

-- The field `key` changed by `f`: nothing, if it is missing or `f` refuses.
unfoldable pub change_field : String → (Value → Option Value) → Fields → Option Fields
change_field key f end = none
change_field key f (field k w fs) =
    let rest = change_field key f fs in
    if str_eq k key then map_some (λ v. field k v fs) (f w) else map_some (field k w) rest

-- `f(value.pointer_mut(path)?)`, for the paths of the source, none of which is a number
unfoldable pub change_at : List String → (Value → Option Value) → Value → Option Value
change_at [] f v = f v
change_at (key ∷ path) f (object fs) = map_some object (change_field key (change_at path f) fs)
change_at (key ∷ path) f _ = none

str_eq_refl : (key : String) → str_eq key key ≡ true
str_eq_refl key = (eq_iff key key).1 refl

module _ (key : String) (v : Value) where
  pub find-put : (fs : Fields) → find_field key (put_field key v fs) ≡ some v
  unfolding put_field
  find-put end = rw (str_eq_refl key)
  find-put (field k w fs) = elim (Bool-cases (str_eq k key)) [
    | inl same ↦ rw (same, same)
    | inr differs ↦ rw (differs, differs) (find-put fs)
  ]

  pub find-put_other :
      (other : String) (fs : Fields)
      → str_eq key other ≡ false
      → find_field other (put_field key v fs) ≡ find_field other fs
  unfolding put_field
  find-put_other other end ne = rw ne
  find-put_other other (field k w fs) ne = elim (Bool-cases (str_eq k key)) [
    | inl same ↦
        let k_ne : str_eq k other ≡ false = ap (λ x. str_eq x other) ((eq_iff k key).0 same) ∙ ne in
        rw (same, k_ne)
    | inr differs ↦
        rw differs (ap (λ r. if str_eq k other then some w else r) (find-put_other other fs ne))
  ]

-- The same value put twice.
pub put_field_idempotent :
    (key : String) (v : Value) (fs : Fields)
    → put_field key v (put_field key v fs) ≡ put_field key v fs
unfolding put_field
put_field_idempotent key v end = rw (str_eq_refl key) refl
put_field_idempotent key v (field k w fs) = elim (Bool-cases (str_eq k key)) [
  | inl same ↦ rw (same, same) refl
  | inr differs ↦ rw (differs, differs) (ap (field k w) (put_field_idempotent key v fs))
]

module _ (key : String) where
  pub find-remove : (fs : Fields) → find_field key (remove_field key fs) ≡ none
  unfolding remove_field
  find-remove end = refl
  find-remove (field k w fs) = elim (Bool-cases (str_eq k key)) [
    | inl same ↦ rw same (find-remove fs)
    | inr differs ↦ rw (differs, differs) (find-remove fs)
  ]

  pub find-remove_other :
      (other : String) (fs : Fields)
      → str_eq key other ≡ false
      → find_field other (remove_field key fs) ≡ find_field other fs
  unfolding remove_field
  find-remove_other other end ne = refl
  find-remove_other other (field k w fs) ne = elim (Bool-cases (str_eq k key)) [
    | inl same ↦
        let k_ne : str_eq k other ≡ false = ap (λ x. str_eq x other) ((eq_iff k key).0 same) ∙ ne in
        rw (same, k_ne) (find-remove_other other fs ne)
    | inr differs ↦
        rw differs (ap (λ r. if str_eq k other then some w else r) (find-remove_other other fs ne))
  ]

-- What `change_field` did: one field, and nothing else.
pub record IsChanged (key : String) (f : Value → Option Value) (fs gs : Fields) : Type 0 where
  pub before : Value
  pub after : Value
  pub was : find_field key fs ≡ some before
  pub became : find_field key gs ≡ some after
  pub by : f before ≡ some after
  pub others :
      (other : String) → str_eq key other ≡ false → find_field other gs ≡ find_field other fs

pub map_some-eq-some :
    {A B : Type 0} (f : A → B) (o : Option A) (b : B)
    → map_some f o ≡ some b
    → (a : A) × ((o ≡ some a) × (f a ≡ b))
map_some-eq-some f none b e = cc
map_some-eq-some f (some a) b e = (a, (refl, some-injective (f a) b e))

module _ (key : String) (f : Value → Option Value) where
  change-first :
      (k : String) (w v : Value) (fs : Fields)
      → str_eq k key ≡ true
      → f w ≡ some v
      → IsChanged key f (field k w fs) (field k v fs)
  change-first k w v fs same by = record {
    before = w;
    after = v;
    was = rw same;
    became = rw same;
    by = by;
    others = λ other ne.
        let k_ne : str_eq k other ≡ false = ap (λ x. str_eq x other) ((eq_iff k key).0 same) ∙ ne in
        rw k_ne;
  }

  change-rest :
      (k : String) (w : Value) (fs gs : Fields)
      → str_eq k key ≡ false
      → IsChanged key f fs gs
      → IsChanged key f (field k w fs) (field k w gs)
  change-rest k w fs gs differs c = record {
    before = c.before;
    after = c.after;
    was = rw differs c.was;
    became = rw differs c.became;
    by = c.by;
    others = λ other ne. ap (λ r. if str_eq k other then some w else r) (c.others other ne);
  }

  pub change_field-IsChanged :
      (fs gs : Fields) → change_field key f fs ≡ some gs → IsChanged key f fs gs
  unfolding change_field
  change_field-IsChanged end gs e = cc
  change_field-IsChanged (field k w fs) gs e = elim (Bool-cases (str_eq k key)) [
    | inl same ↦
        let (v, (by, is)) =
          map_some-eq-some (λ v. field k v fs) (f w) gs
            (sym (
                ap
                  (λ b.
                    if b
                    then map_some (λ v. field k v fs) (f w)
                    else map_some (field k w) (change_field key f fs))
                  same)
              ∙ e) in
        subst (IsChanged key f (field k w fs)) is (change-first k w v fs same by)
    | inr differs ↦
        let (hs, (by, is)) = map_some-eq-some (field k w) (change_field key f fs) gs (
          sym (
            ap
              (λ b.
                if b
                then map_some (λ v. field k v fs) (f w)
                else map_some (field k w) (change_field key f fs))
              differs)
          ∙ e) in
        subst (IsChanged key f (field k w fs)) is
          (change-rest k w fs hs differs (change_field-IsChanged fs hs by))
  ]

  -- A field that `f` refuses, and a missing one, cannot be changed.
  pub change_field-refused :
      (fs : Fields) (a : Value)
      → find_field key fs ≡ some a
      → f a ≡ none
      → change_field key f fs ≡ none
  unfolding change_field
  change_field-refused end a here refuses = refl
  change_field-refused (field k w fs) a here refuses = elim (Bool-cases (str_eq k key)) [
    | inl same ↦
        let is : w ≡ a =
          some-injective w a
            (sym (ap (λ b. if b then some w else find_field key fs) same) ∙ here) in
        rw (same, is, refuses)
    | inr differs ↦
        let there : find_field key fs ≡ some a =
          sym (ap (λ b. if b then some w else find_field key fs) differs) ∙ here in
        rw (differs, change_field-refused fs a there refuses)
  ]

-- A change below an object is a change of one field.
pub change_at-IsChanged :
    (key : String) (path : List String) (f : Value → Option Value) (v w : Value)
    → change_at (key ∷ path) f v ≡ some w
    → (fs : Fields) × ((gs : Fields) × ((v ≡ object fs)
          × ((object gs ≡ w) × IsChanged key (change_at path f) fs gs)))
unfolding change_at
change_at-IsChanged key path f (object fs) w e =
    let (gs, (by, is)) = map_some-eq-some object (change_field key (change_at path f) fs) w e in
    (fs, (gs, (refl, (is, change_field-IsChanged key (change_at path f) fs gs by))))
change_at-IsChanged key path f null w e = cc
change_at-IsChanged key path f (bool b) w e = cc
change_at-IsChanged key path f (number n) w e = cc
change_at-IsChanged key path f (string s) w e = cc
change_at-IsChanged key path f (array vs) w e = cc

pub change_at-object :
    (key : String) (path : List String) (f : Value → Option Value) (fs : Fields) (a : Value)
    → find_field key fs ≡ some a
    → change_at path f a ≡ none
    → change_at (key ∷ path) f (object fs) ≡ none
change_at-object key path f fs a here refuses =
    unfold change_at in
    ap (map_some object) (change_field-refused key (change_at path f) fs a here refuses)

-- Where `f` refuses what it has made, so does a change by `f` at any path.
pub change_at-once :
    (f : Value → Option Value)
    → ((a b : Value) → f a ≡ some b → f b ≡ none)
    → (path : List String) (v w : Value) → change_at path f v ≡ some w
    → change_at path f w ≡ none
change_at-once f once [] v w e = unfold change_at in once v w e
change_at-once f once (key ∷ path) v w e =
    let (fs, (gs, (from, (is, c)))) = change_at-IsChanged key path f v w e in
    subst (λ u. change_at (key ∷ path) f u ≡ none) is
      (change_at-object key path f gs c.after c.became
        (change_at-once f once path c.before c.after c.by))
