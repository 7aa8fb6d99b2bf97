-- ===== src/Partial/Counts.antt =====
-- src/gemini/partial.rs, `set_path`: each slot that it adds to an array is counted.
use mathlib.Core.Path.{subst}
use hey_proxy.Base.{
  ℕ, zero, suc, ◌+◌, ◌-◌, ◌<◌, ◌≤◌, ◌≡◌, refl, sym, ap, ◌∙◌, inl, inr, List, [], ◌∷◌, ◌++◌, arith,
  leb, leb→le, leb-eq-false, ltb-eq-false, ltb, length, length-append, Bool-cases, Result, ok, err,
  ◌>>=◌, str_eq, String,
}
use hey_proxy.Json.{
  Value, null, string, array, object, Items, nil, cons, Fields, end, field, items, elements,
}
use hey_proxy.Json.Update.{put_field}
use hey_proxy.Json.Access.{find_field, or_null}
use hey_proxy.Partial.Path.{
  Segment, key, at, PathError, max_slots, grow, as_fields, as_elements, put_leaf, nulls,
  nth_or_null, set_nth, set_path,
}

-- The elements of all arrays in a value.
abbrev mutual
  pub slots_of : Value → ℕ
  slots_of (array vs) = items_slots vs
  slots_of (object fs) = fields_slots fs
  slots_of _ = 0

  pub items_slots : Items → ℕ
  items_slots nil = 0
  items_slots (cons v vs) = suc (slots_of v + items_slots vs)

  pub fields_slots : Fields → ℕ
  fields_slots end = 0
  fields_slots (field k v fs) = slots_of v + fields_slots fs

abbrev pub list_slots : List Value → ℕ
list_slots vs = items_slots (items vs)

list_slots-elements : (vs : Items) → list_slots (elements vs) ≡ items_slots vs
list_slots-elements nil = refl
list_slots-elements (cons v vs) = ap (λ n. suc (slots_of v + n)) (list_slots-elements vs)

fields_slots-put_field :
    (k : String) (v : Value) (fs : Fields)
    → fields_slots (put_field k v fs) + slots_of (or_null (find_field k fs))
      ≡ fields_slots fs + slots_of v
unfolding put_field
fields_slots-put_field k v end = omega arith
fields_slots-put_field k v (field l w fs) = elim (Bool-cases (str_eq l k)) [
  | inl same ↦ rw same (omega arith)
  | inr differs ↦ rw differs (omega (arith, fields_slots-put_field k v fs))
]

list_slots-set_nth :
    (vs : List Value) (i : ℕ) (w : Value)
    → i < length vs
    → list_slots (set_nth vs i w) + slots_of (nth_or_null vs i) ≡ list_slots vs + slots_of w
list_slots-set_nth [] i w h = absurd (omega (arith, h))
list_slots-set_nth (v ∷ vs) zero w h = omega arith
list_slots-set_nth (v ∷ vs) (suc i) w h =
    omega (arith, list_slots-set_nth vs i w (omega (arith, h)))

list_slots-nulls : (n : ℕ) → list_slots (nulls n) ≡ n
list_slots-nulls zero = refl
list_slots-nulls (suc n) = omega (arith, list_slots-nulls n)

length-nulls : (n : ℕ) → length (nulls n) ≡ n
length-nulls zero = refl
length-nulls (suc n) = ap suc (length-nulls n)

list_slots-append : (vs ws : List Value) → list_slots (vs ++ ws) ≡ list_slots vs + list_slots ws
list_slots-append [] ws = omega arith
list_slots-append (v ∷ vs) ws = omega (arith, list_slots-append vs ws)

-- An array with a slot at the index, whose new slots are counted.
abbrev IsGrown : ℕ → List Value → ℕ → Result PathError (ℕ × List Value) → Type 0
IsGrown i vs slots (ok (n, ws)) =
    (list_slots ws + slots ≡ list_slots vs + n)
    × (i < length ws)
    × (slots ≤ max_slots → n ≤ max_slots)
IsGrown i vs slots (err e) = Unit {0}

grow-IsGrown : (i slots : ℕ) (vs : List Value) → IsGrown i vs slots (grow i vs slots)
grow-IsGrown i slots vs =
    let added = suc i - length vs in
    elim (Bool-cases (leb (length vs) i)) [
      | inr inside ↦ rw inside (refl, omega (arith, leb-eq-false (length vs) i inside), λ h. h)
      | inl outside ↦ elim (Bool-cases (ltb (max_slots - slots) added)) [
        | inl full ↦ rw (outside, full) tt
        | inr room ↦
            let within = leb→le (length vs) i outside in
            let k = ltb-eq-false (max_slots - slots) added room in
            rw (outside, room)
              (
                omega (arith, list_slots-append vs (nulls added), list_slots-nulls added),
                omega (arith, length-append vs (nulls added), length-nulls added, within),
                λ h. omega (arith, k, h),
              )
      ]
    ]

-- The slots of the new target are those of the old and of the value, and those that were counted.
abbrev pub IsCounted : Value → Value → ℕ → Result PathError (Value × ℕ) → Type 0
IsCounted target value slots (ok (new, after)) =
    (slots_of new + slots ≡ slots_of target + slots_of value + after)
    × (slots ≤ max_slots → after ≤ max_slots)
IsCounted target value slots (err e) = Unit {0}

put_leaf-IsCounted :
    (target value : Value) (slots : ℕ)
    → IsCounted target value slots (put_leaf target value >>= λ v. ok (v, slots))
put_leaf-IsCounted (string s) (string t) slots = (omega arith, λ h. h)
put_leaf-IsCounted null value slots = (omega arith, λ h. h)
put_leaf-IsCounted _ value slots = tt

IsCounted-bind :
    {A : Type 0} (target value : Value) (slots : ℕ) (m : Result PathError A)
    (f : A → Result PathError (Value × ℕ))
    → ((a : A) → m ≡ ok a → IsCounted target value slots (f a))
    → IsCounted target value slots (m >>= f)
IsCounted-bind target value slots (ok a) f h = h a refl
IsCounted-bind target value slots (err e) f h = tt

as_fields-slots : (v : Value) (fs : Fields) → as_fields v ≡ ok fs → slots_of v ≡ fields_slots fs
as_fields-slots null fs e = let same : end ≡ fs = cc in ap fields_slots same
as_fields-slots (object gs) fs e = let same : gs ≡ fs = cc in ap fields_slots same
as_fields-slots _ fs e = cc

as_elements-slots :
    (v : Value) (vs : List Value) → as_elements v ≡ ok vs → slots_of v ≡ list_slots vs
as_elements-slots null vs e = let same : [] ≡ vs = cc in ap list_slots same
as_elements-slots (array ws) vs e =
    let same : elements ws ≡ vs = cc in sym (list_slots-elements ws) ∙ ap list_slots same
as_elements-slots _ vs e = cc

-- A part of the target that was changed, put back in its place; `slots` had been counted before it.
placed-IsCounted :
    (target part value : Value) (slots before : ℕ) (m : Result PathError (Value × ℕ))
    (f : Value → Value)
    → IsCounted part value before m
    → (slots ≤ max_slots → before ≤ max_slots)
    → ((new : Value)
        → slots_of (f new) + slots_of part + slots ≡ slots_of target + slots_of new + before)
    → IsCounted target value slots (m >>= λ r. ok (f r.0, r.1))
placed-IsCounted target part value slots before (ok (new, after)) f (h, bound) grown place =
    (omega (arith, h, place new), λ l. bound (grown l))
placed-IsCounted target part value slots before (err e) f h grown place = tt

pub set_path-IsCounted :
    (path : List Segment) (target value : Value) (slots : ℕ)
    → IsCounted target value slots (set_path path target value slots)
unfolding set_path
set_path-IsCounted [] target value slots = put_leaf-IsCounted target value slots
set_path-IsCounted (key k ∷ path) target value slots =
    let part : Fields → Value = λ fs. or_null (find_field k fs) in
    IsCounted-bind target value slots (as_fields target)
      (λ fs. set_path path (part fs) value slots >>= λ r. ok (object (put_field k r.0 fs), r.1))
      λ fs e.
        placed-IsCounted target (part fs) value slots slots (set_path path (part fs) value slots)
          (λ new. object (put_field k new fs)) (set_path-IsCounted path (part fs) value slots)
          (λ h. h)
          λ new. omega (arith, as_fields-slots target fs e, fields_slots-put_field k new fs)
set_path-IsCounted (at i ∷ path) target value slots =
    let inner : ℕ × List Value → Result PathError (Value × ℕ) =
      λ g. set_path path (nth_or_null g.1 i) value g.0 in
    let build : ℕ × List Value → Result PathError (Value × ℕ) =
      λ g. inner g >>= λ r. ok (array (items (set_nth g.1 i r.0)), r.1) in
    IsCounted-bind target value slots (as_elements target) (λ vs. grow i vs slots >>= build)
      λ vs e. IsCounted-bind target value slots (grow i vs slots) build λ g grows.
        let (counts, inside, bound) = subst (IsGrown i vs slots) grows (grow-IsGrown i slots vs) in
        placed-IsCounted target (nth_or_null g.1 i) value slots g.0 (inner g)
          (λ new. array (items (set_nth g.1 i new)))
          (set_path-IsCounted path (nth_or_null g.1 i) value g.0) bound
          λ new.
            omega
              (arith, counts, as_elements-slots target vs e, list_slots-set_nth g.1 i new inside)
