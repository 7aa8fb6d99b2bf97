-- ===== src/Guidance/Once.antt =====
-- src/proxy/guidance.rs, `apply`: a second application changes nothing.
use mathlib.Core.Path.{subst}
use hey_proxy.Base.{
  ◌≡◌, refl, sym, ap, ◌∙◌, inl, inr, String, Bool, true, false, Option, none, some, List, [], ◌∷◌,
  Bool-cases, if◌then◌else◌, str_eq,
}
use hey_proxy.Json.{
  Value, null, bool, number, string, array, object, nil, cons, Fields, elements, items, Items,
}
use hey_proxy.Json.Access.{find_field}
use hey_proxy.Json.Update.{put_field, find-put, find-put_other}
use hey_proxy.Guidance.{
  Applied, asked, asking, user_message, is_reminded, remind, is_other_type, with_input,
  with_messages, apply, trim_slashes,
}
use hey_proxy.Guidance.Reminder.{IsReminded, remind-IsReminded, elements-items}

items-elements : (vs : Items) → items (elements vs) ≡ vs
items-elements nil = refl
items-elements (cons v vs) = ap (cons v) (items-elements vs)

remind-reminded :
    (key : String) (ms : List Value) (gs : Fields)
    → is_reminded ms ≡ true
    → remind key (elements (items ms)) gs ≡ (false, object gs)
unfolding remind
remind-reminded key ms gs h = rw (elements-items ms, h)

abbrev is_responses : String → Bool
is_responses path = str_eq (trim_slashes path) "/v1/responses"

abbrev is_chat : String → Bool
is_chat path = str_eq (trim_slashes path) "/v1/chat/completions"

module _ (path : String) (fs : Fields) where
  apply-responses :
      is_responses path ≡ true
      → is_other_type (find_field "type" fs) ≡ false
      → apply path (object fs) ≡ with_input fs (find_field "input" fs)
  unfolding apply
  apply-responses here create = rw (here, create)

  apply-other_type :
      is_responses path ≡ true
      → is_other_type (find_field "type" fs) ≡ true
      → apply path (object fs) ≡ (false, object fs)
  unfolding apply
  apply-other_type here other = rw (here, other)

  apply-chat :
      is_responses path ≡ false
      → is_chat path ≡ true
      → apply path (object fs) ≡ with_messages fs (find_field "messages" fs)
  unfolding apply
  apply-chat elsewhere here = rw (elsewhere, here)

  apply-elsewhere :
      is_responses path ≡ false → is_chat path ≡ false → apply path (object fs) ≡ (false, object fs)
  unfolding apply
  apply-elsewhere elsewhere no_chat = rw (elsewhere, no_chat)

-- A request that `apply` leaves alone.
abbrev IsFixed : String → Value → Type 0
IsFixed path v = apply path v ≡ (false, v)

-- After a reminder in the field that the path reads, the request is left alone.
responses-IsFixed :
    (path : String) (ms : List Value) (fs gs : Fields)
    → is_responses path ≡ true
    → is_other_type (find_field "type" fs) ≡ false
    → IsReminded "input" ms fs gs
    → IsFixed path (object gs)
responses-IsFixed path ms fs gs here create k =
    apply-responses path gs here (ap is_other_type (k.rest "type" refl) ∙ create)
    ∙ ap (with_input gs) k.held
    ∙ remind-reminded "input" k.messages gs k.reminded

chat-IsFixed :
    (path : String) (ms : List Value) (fs gs : Fields)
    → is_responses path ≡ false
    → is_chat path ≡ true
    → IsReminded "messages" ms fs gs
    → IsFixed path (object gs)
chat-IsFixed path ms fs gs elsewhere here k =
    apply-chat path gs elsewhere here
    ∙ ap (with_messages gs) k.held
    ∙ remind-reminded "messages" k.messages gs k.reminded

remind-responses :
    (path : String) (ms : List Value) (fs : Fields)
    → is_responses path ≡ true
    → is_other_type (find_field "type" fs) ≡ false
    → find_field "input" fs ≡ some (array (items ms))
    → IsFixed path (remind "input" ms fs).1
remind-responses path ms fs here create held =
    let (gs, (is, k)) = remind-IsReminded "input" ms fs held in
    subst (IsFixed path) (sym is) (responses-IsFixed path ms fs gs here create k)

-- The same for each kind of input.
with_input-IsFixed :
    (path : String) (fs : Fields) (o : Option Value)
    → is_responses path ≡ true
    → is_other_type (find_field "type" fs) ≡ false
    → find_field "input" fs ≡ o
    → IsFixed path (with_input fs o).1
with_input-IsFixed path fs (some (string text)) here create e =
    remind-responses path (user_message text ∷ [])
      (put_field "input" (array (cons (user_message text) nil)) fs) here
      (ap is_other_type
          (find-put_other "input" (array (cons (user_message text) nil)) "type" fs refl)
        ∙ create)
      (find-put "input" (array (cons (user_message text) nil)) fs)
with_input-IsFixed path fs (some (array vs)) here create e =
    remind-responses path (elements vs) fs here create
      (e ∙ ap (λ ws. some (array ws)) (sym (items-elements vs)))
with_input-IsFixed path fs none here create e = elim (Bool-cases (asked fs)) [
  | inl asks ↦
      subst (λ (p : Applied). IsFixed path p.1)
        (sym (ap (λ b. if b then asking fs else (false, object fs)) asks))
        (remind-responses path [] (put_field "input" (array nil) fs) here
          (ap is_other_type (find-put_other "input" (array nil) "type" fs refl) ∙ create)
          (find-put "input" (array nil) fs))
  | inr no_request ↦
      subst (λ (p : Applied). IsFixed path p.1)
        (sym (ap (λ b. if b then asking fs else (false, object fs)) no_request))
        (apply-responses path fs here create
          ∙ ap (with_input fs) e
          ∙ ap (λ b. if b then asking fs else (false, object fs)) no_request)
]
with_input-IsFixed path fs (some null) here create e =
    apply-responses path fs here create ∙ ap (with_input fs) e
with_input-IsFixed path fs (some (bool b)) here create e =
    apply-responses path fs here create ∙ ap (with_input fs) e
with_input-IsFixed path fs (some (number n)) here create e =
    apply-responses path fs here create ∙ ap (with_input fs) e
with_input-IsFixed path fs (some (object os)) here create e =
    apply-responses path fs here create ∙ ap (with_input fs) e

with_messages-IsFixed :
    (path : String) (fs : Fields) (o : Option Value)
    → is_responses path ≡ false
    → is_chat path ≡ true
    → find_field "messages" fs ≡ o
    → IsFixed path (with_messages fs o).1
with_messages-IsFixed path fs (some (array vs)) elsewhere here e =
    let held : find_field "messages" fs ≡ some (array (items (elements vs))) =
      e ∙ ap (λ ws. some (array ws)) (sym (items-elements vs)) in
    let (gs, (is, k)) = remind-IsReminded "messages" (elements vs) fs held in
    subst (IsFixed path) (sym is) (chat-IsFixed path (elements vs) fs gs elsewhere here k)
with_messages-IsFixed path fs none elsewhere here e =
    apply-chat path fs elsewhere here ∙ ap (with_messages fs) e
with_messages-IsFixed path fs (some null) elsewhere here e =
    apply-chat path fs elsewhere here ∙ ap (with_messages fs) e
with_messages-IsFixed path fs (some (bool b)) elsewhere here e =
    apply-chat path fs elsewhere here ∙ ap (with_messages fs) e
with_messages-IsFixed path fs (some (number n)) elsewhere here e =
    apply-chat path fs elsewhere here ∙ ap (with_messages fs) e
with_messages-IsFixed path fs (some (string s)) elsewhere here e =
    apply-chat path fs elsewhere here ∙ ap (with_messages fs) e
with_messages-IsFixed path fs (some (object os)) elsewhere here e =
    apply-chat path fs elsewhere here ∙ ap (with_messages fs) e

object-IsFixed : (path : String) (fs : Fields) → IsFixed path (apply path (object fs)).1
object-IsFixed path fs = elim (Bool-cases (is_responses path)) [
  | inl here ↦ elim (Bool-cases (is_other_type (find_field "type" fs))) [
    | inl other ↦ along (apply-other_type path fs here other) (apply-other_type path fs here other)
    | inr create ↦
        along (apply-responses path fs here create)
          (with_input-IsFixed path fs (find_field "input" fs) here create refl)
  ]
  | inr elsewhere ↦ elim (Bool-cases (is_chat path)) [
    | inl here ↦
        along (apply-chat path fs elsewhere here)
          (with_messages-IsFixed path fs (find_field "messages" fs) elsewhere here refl)
    | inr no_chat ↦
        along (apply-elsewhere path fs elsewhere no_chat)
          (apply-elsewhere path fs elsewhere no_chat)
  ]
]
  where
    along : {p q : Applied} → p ≡ q → IsFixed path q.1 → IsFixed path p.1
    along e h = subst (λ (r : Applied). IsFixed path r.1) (sym e) h

-- Applied to its own result, on any path and for any request, `apply` changes nothing and says so.
pub apply-once :
    (path : String) (v : Value) → apply path (apply path v).1 ≡ (false, (apply path v).1)
apply-once path (object fs) = object-IsFixed path fs
apply-once path null = unfold apply in refl
apply-once path (bool b) = unfold apply in refl
apply-once path (number n) = unfold apply in refl
apply-once path (string s) = unfold apply in refl
apply-once path (array vs) = unfold apply in refl
