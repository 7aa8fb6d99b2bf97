-- ===== src/Guidance/Reminder.antt =====
-- src/proxy/guidance.rs, `apply`: a request gets one reminder, at its end, and keeps everything else.
use mathlib.Core.List.{append-nil}
use hey_proxy.Base.{
  ◌≡◌, refl, ap, ◌∙◌, inl, inr, String, Bool, true, false, not, some, List, [], ◌∷◌, ◌++◌,
  Bool-cases, if◌then◌else◌, filter, last-append, str_eq,
}
use hey_proxy.Json.{Value, array, object, Fields, elements, items}
use hey_proxy.Json.Access.{find_field}
use hey_proxy.Json.Update.{put_field, find-put, find-put_other}
use hey_proxy.Guidance.{message, is_reminder, user_message, is_reminded, remind}

pub elements-items : (vs : List Value) → elements (items vs) ≡ vs
elements-items [] = refl
elements-items (v ∷ vs) = rw (elements-items vs)

reminder_is : is_reminder (user_message message) ≡ true
unfolding is_reminder
reminder_is = refl

abbrev others : List Value → List Value
others = filter (λ m. not (is_reminder m))

others-others : (ms : List Value) → filter is_reminder (others ms) ≡ []
others-others [] = refl
others-others (m ∷ ms) = elim (Bool-cases (is_reminder m)) [
  | inl is ↦ rw is (others-others ms)
  | inr other ↦ rw (other, other) (others-others ms)
]

others_idempotent : (ms : List Value) → others (others ms) ≡ others ms
others_idempotent [] = refl
others_idempotent (m ∷ ms) = elim (Bool-cases (is_reminder m)) [
  | inl is ↦ rw is (others_idempotent ms)
  | inr other ↦ rw (other, other) (ap (λ ns. m ∷ ns) (others_idempotent ms))
]

filter-append :
    (p : Value → Bool) (xs ys : List Value) → filter p (xs ++ ys) ≡ filter p xs ++ filter p ys
filter-append p [] ys = refl
filter-append p (x ∷ xs) ys = elim (Bool-cases (p x)) [
  | inl holds ↦ rw holds (ap (λ zs. x ∷ zs) (filter-append p xs ys))
  | inr fails ↦ rw fails (filter-append p xs ys)
]

abbrev settled : List Value → List Value
settled ms = others ms ++ user_message message ∷ []

is_reminded-settled : (ms : List Value) → is_reminded (settled ms) ≡ true
is_reminded-settled ms = rw (
  last-append (others ms) (user_message message),
  reminder_is,
  filter-append is_reminder (others ms) (user_message message ∷ []),
  others-others ms,
  reminder_is,
)

others-settled : (ms : List Value) → others (settled ms) ≡ others ms
others-settled ms =
    filter-append (λ m. not (is_reminder m)) (others ms) (user_message message ∷ [])
    ∙ ap (λ b. others (others ms) ++ (if not b then user_message message ∷ [] else [])) reminder_is
    ∙ append-nil (others (others ms))
    ∙ others_idempotent ms

-- The messages behind a change of the field `key`: the others are the same, in the same order, and a
-- reminder ends them and is the only one. No other field has changed.
pub record IsReminded (key : String) (ms : List Value) (fs gs : Fields) : Type 0 where
  pub messages : List Value
  pub held : find_field key gs ≡ some (array (items messages))
  pub kept : others messages ≡ others ms
  pub reminded : is_reminded messages ≡ true
  pub rest : (other : String) → str_eq key other ≡ false → find_field other gs ≡ find_field other fs

-- Where the field `key` holds the messages, the request after `remind` holds them with exactly one
-- reminder, at the end, and is otherwise the same; this holds whichever answer `remind` gives.
pub remind-IsReminded :
    (key : String) (ms : List Value) (fs : Fields)
    → find_field key fs ≡ some (array (items ms))
    → (gs : Fields) × (((remind key ms fs).1 ≡ object gs) × IsReminded key ms fs gs)
unfolding remind
remind-IsReminded key ms fs held = elim (Bool-cases (is_reminded ms)) [
  | inl already ↦ (
    fs,
    (
      rw already,
      record {
        messages = ms;
        held = held;
        kept = refl;
        reminded = already;
        rest = λ other ne. refl;
      },
    ),
  )
  | inr no_reminder ↦ (
    put_field key (array (items (settled ms))) fs,
    (
      rw no_reminder,
      record {
        messages = settled ms;
        held = find-put key (array (items (settled ms))) fs;
        kept = others-settled ms;
        reminded = is_reminded-settled ms;
        rest = λ other ne. find-put_other key (array (items (settled ms))) other fs ne;
      },
    ),
  )
]
