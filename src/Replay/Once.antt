-- ===== src/Replay/Once.antt =====
-- src/proxy/replay.rs, `for_openai`: a request that was cleaned has nothing more to be taken out.
use mathlib.Core.Path.{subst}
use hey_proxy.Base.{
  String, Bool, true, false, not, ◌&&◌, ◌||◌, Option, none, some, List, [], ◌∷◌, ◌≡◌, refl, sym, ap,
  ◌∙◌, inl, inr, Bool-cases, if◌then◌else◌, map, length, any, ◌==◌, ==_refl,
}
use hey_proxy.Base.Text.{has_prefix}
use hey_proxy.Json.{Value, null, bool, number, string, array, object, Fields, elements, items}
use hey_proxy.Json.Access.{find_field, index, as_str, or_null, is_text, is_some_and}
use hey_proxy.Json.Update.{
  put_field, find-put, find-put_other, put_field_idempotent, remove_field, find-remove,
  find-remove_other,
}
use hey_proxy.Guidance.{Applied}
use hey_proxy.Guidance.Reminder.{elements-items}
use hey_proxy.Replay.{
  is_foreign, is_minted, gemini_item_id, drop_id, retained, clean, with_input, is_openai,
  is_responses, for_openai, carrier_prefix,
}

drop_id-not_minted : (item : Value) → is_minted item ≡ false → drop_id item ≡ item
unfolding drop_id
drop_id-not_minted (object fs) h = rw h refl
drop_id-not_minted null h = refl
drop_id-not_minted (bool b) h = refl
drop_id-not_minted (number n) h = refl
drop_id-not_minted (string s) h = refl
drop_id-not_minted (array vs) h = refl

drop_id-minted :
    (fs : Fields)
    → is_minted (object fs) ≡ true
    → drop_id (object fs) ≡ object (remove_field "id" fs)
unfolding drop_id
drop_id-minted fs h = rw h refl

-- An item whose id is dropped has none, and what makes it foreign is as before.
is_minted-drop_id : (item : Value) → is_minted (drop_id item) ≡ false
unfolding drop_id
is_minted-drop_id (object fs) = elim (Bool-cases (is_minted (object fs))) [
  | inl minted ↦
      ap is_minted (drop_id-minted fs minted)
      ∙ ap (λ o. is_some_and gemini_item_id (as_str (or_null o))) (find-remove "id" fs)
  | inr other ↦ ap is_minted (drop_id-not_minted (object fs) other) ∙ other
]
is_minted-drop_id null = refl
is_minted-drop_id (bool b) = refl
is_minted-drop_id (number n) = refl
is_minted-drop_id (string s) = refl
is_minted-drop_id (array vs) = refl

is_foreign-drop_id : (item : Value) → is_foreign (drop_id item) ≡ is_foreign item
unfolding drop_id is_foreign
is_foreign-drop_id (object fs) = elim (Bool-cases (is_minted (object fs))) [
  | inl minted ↦
      let test : Option Value → Option Value → Bool = λ o p.
        is_text "reasoning" (or_null o)
        && is_some_and (has_prefix carrier_prefix) (as_str (or_null p)) in
      ap is_foreign (drop_id-minted fs minted)
      ∙ ap (λ o. test o (find_field "encrypted_content" (remove_field "id" fs)))
          (find-remove_other "id" "type" fs refl)
      ∙ ap (λ p. test (find_field "type" fs) p) (find-remove_other "id" "encrypted_content" fs refl)
  | inr other ↦ rw other refl
]
is_foreign-drop_id null = refl
is_foreign-drop_id (bool b) = refl
is_foreign-drop_id (number n) = refl
is_foreign-drop_id (string s) = refl
is_foreign-drop_id (array vs) = refl

-- The items that are left.
abbrev cleaned : List Value → List Value
cleaned input = map drop_id (retained input)

retained-cleaned : (input : List Value) → retained (cleaned input) ≡ cleaned input
retained-cleaned [] = refl
retained-cleaned (item ∷ rest) = elim (Bool-cases (is_foreign item)) [
  | inl foreign ↦ rw foreign (retained-cleaned rest)
  | inr native ↦
      let still : is_foreign (drop_id item) ≡ false = is_foreign-drop_id item ∙ native in
      rw (native, still) (ap (λ vs. drop_id item ∷ vs) (retained-cleaned rest))
]

any-cleaned : (input : List Value) → any is_minted (map drop_id input) ≡ false
any-cleaned [] = refl
any-cleaned (item ∷ rest) = rw (is_minted-drop_id item) (any-cleaned rest)

map-cleaned : (input : List Value) → map drop_id (map drop_id input) ≡ map drop_id input
map-cleaned [] = refl
map-cleaned (item ∷ rest) =
    ap (λ v. v ∷ map drop_id (map drop_id rest))
      (drop_id-not_minted (drop_id item) (is_minted-drop_id item))
    ∙ ap (λ vs. drop_id item ∷ vs) (map-cleaned rest)

-- What `clean` makes of a request that was cleaned.
clean-cleaned :
    (input : List Value) (fs : Fields)
    → (let done = put_field "input" (array (items (cleaned input))) fs in
        clean (cleaned input) done ≡ (false, object done))
unfolding clean
clean-cleaned input fs =
    let vs = cleaned input in
    let made : List Value → Applied = λ kept. (
      not (length kept == length vs) || any is_minted kept,
      object (
          put_field "input" (array (items (map drop_id kept)))
            (put_field "input" (array (items vs)) fs)),
    ) in
    let done = put_field "input" (array (items vs)) fs in
    let again = put_field "input" (array (items (map drop_id vs))) done in
    let same : Bool → Applied = λ b. (not b || any is_minted vs, object again) in
    let minted : Bool → Applied = λ b. (b, object again) in
    let put : List Value → Applied =
      λ ws. (false, object (put_field "input" (array (items ws)) done)) in
    let only : Fields → Applied = λ gs. (false, object gs) in
    ap made (retained-cleaned input)
    ∙ ap same (==_refl (length vs))
    ∙ ap minted (any-cleaned (retained input))
    ∙ ap put (map-cleaned (retained input))
    ∙ ap only (put_field_idempotent "input" (array (items vs)) fs)

abbrev is_sent : String → Fields → Bool
is_sent path fs = is_responses path && is_openai (as_str (index (object fs) "model"))

module _ (path : String) (fs : Fields) where
  for_openai-sent :
      is_sent path fs ≡ true → for_openai path (object fs) ≡ with_input fs (find_field "input" fs)
  unfolding for_openai
  for_openai-sent h =
      ap (λ b. if b then with_input fs (find_field "input" fs) else (false, object fs)) h

  for_openai-other : is_sent path fs ≡ false → for_openai path (object fs) ≡ (false, object fs)
  unfolding for_openai
  for_openai-other h =
      ap (λ b. if b then with_input fs (find_field "input" fs) else (false, object fs)) h

-- A request that `for_openai` leaves alone.
abbrev IsFixed : String → Value → Type 0
IsFixed path v = for_openai path v ≡ (false, v)

cleaned-IsFixed :
    (path : String) (input : List Value) (fs : Fields)
    → is_sent path fs ≡ true
    → IsFixed path (object (put_field "input" (array (items (cleaned input))) fs))
cleaned-IsFixed path input fs h =
    let held = array (items (cleaned input)) in
    let done = put_field "input" held fs in
    let sent : is_sent path done ≡ true =
      ap (λ o. is_responses path && is_openai (as_str (or_null o)))
        (find-put_other "input" held "model" fs refl)
      ∙ h in
    for_openai-sent path done sent
    ∙ ap (with_input done) (find-put "input" held fs)
    ∙ ap (λ vs. clean vs done) (elements-items (cleaned input))
    ∙ clean-cleaned input fs

with_input-IsFixed :
    (path : String) (fs : Fields) (o : Option Value)
    → is_sent path fs ≡ true
    → find_field "input" fs ≡ o
    → IsFixed path (with_input fs o).1
unfolding clean
with_input-IsFixed path fs (some (array vs)) h e = cleaned-IsFixed path (elements vs) fs h
with_input-IsFixed path fs none h e = for_openai-sent path fs h ∙ ap (with_input fs) e
with_input-IsFixed path fs (some null) h e = for_openai-sent path fs h ∙ ap (with_input fs) e
with_input-IsFixed path fs (some (bool b)) h e = for_openai-sent path fs h ∙ ap (with_input fs) e
with_input-IsFixed path fs (some (number n)) h e = for_openai-sent path fs h ∙ ap (with_input fs) e
with_input-IsFixed path fs (some (string s)) h e = for_openai-sent path fs h ∙ ap (with_input fs) e
with_input-IsFixed path fs (some (object os)) h e = for_openai-sent path fs h ∙ ap (with_input fs) e

along : (path : String) {p q : Applied} → p ≡ q → IsFixed path q.1 → IsFixed path p.1
along path e h = subst (λ (r : Applied). IsFixed path r.1) (sym e) h

object-IsFixed : (path : String) (fs : Fields) → IsFixed path (for_openai path (object fs)).1
object-IsFixed path fs = elim (Bool-cases (is_sent path fs)) [
  | inl h ↦
      along path (for_openai-sent path fs h)
        (with_input-IsFixed path fs (find_field "input" fs) h refl)
  | inr h ↦ along path (for_openai-other path fs h) (for_openai-other path fs h)
]

-- Applied to its own result, on any path and for any request, `for_openai` changes nothing and says so.
pub for_openai-once :
    (path : String) (v : Value)
    → for_openai path (for_openai path v).1 ≡ (false, (for_openai path v).1)
for_openai-once path (object fs) = object-IsFixed path fs
for_openai-once path null = unfold for_openai in refl
for_openai-once path (bool b) = unfold for_openai in refl
for_openai-once path (number n) = unfold for_openai in refl
for_openai-once path (string s) = unfold for_openai in refl
for_openai-once path (array vs) = unfold for_openai in refl
