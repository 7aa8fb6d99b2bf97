-- ===== src/Chat/Request/Replayed.antt =====
-- A message that a client sends back unaltered.
use text.Mathlib.TextLemmas.{nil-append}
use mathlib.Core.List.{append-nil, append_assoc}
use hey_proxy.Base.{
  false, str_eq, ℕ, suc, String, true, Option, none, some, List, [], ◌∷◌, ◌++◌, ◌≡◌, refl, sym, ap,
  ◌∙◌, if◌then◌else◌, is_empty, ok, ◌>>=◌, Bool-cases, inl, inr, map,
}
use hey_proxy.Base.Text.{join}
use hey_proxy.Json.{Value, object, Fields, string}
use hey_proxy.Json.Update.{put_field, find-put_other}
use hey_proxy.Json.Access.{find_field, get}
use hey_proxy.Json.Build.{fields, joined, filter_map, obj, list, is_blank_text}
use hey_proxy.Guidance.Reminder.{elements-items}
use hey_proxy.Messages.Response.{Fallible}
use hey_proxy.Chat.Response.{
  with_values, with_reasoning, detail_text, Collected, nothing, assembled, null_or_text,
  collect_items, collect_item, collect_parts, collect_part, call_of,
}
use hey_proxy.Chat.Request.{
  content, visible_from, visible_items, not_null, refusal_parts, all_calls, call_items, call_item,
  function_call, message_items,
}

-- A call by its identity, its name and its arguments.
abbrev pub CallText : Type 0
CallText = String × String × String

abbrev pub sent_call : CallText → Value
sent_call (id, name, args) = function_call id name args

abbrev pub shown_call : CallText → Value
shown_call t = call_of (sent_call t)

abbrev pub shown_calls : List Value → Option Value
shown_calls calls = if is_empty calls then none else some (list calls)

-- The fields of a message, before its reasoning.
abbrev with_fields : String → List Value → Fields → Fields
with_fields key vs fs = if is_empty vs then fs else put_field key (list vs) fs

abbrev told : Collected → Fields
told c = with_fields "annotations" c.annotations (
    with_fields "tool_calls" c.calls (
      fields (
        ("role", string "assistant")
        ∷ ("content", null_or_text c.text)
        ∷ ("refusal", null_or_text c.refusal)
        ∷ [])))

with_values-object :
    (key : String) (vs : List Value) (fs : Fields)
    → with_values key vs (object fs) ≡ object (with_fields key vs fs)
with_values-object key vs fs = elim (Bool-cases (is_empty vs)) [
  | inl e ↦ rw e refl
  | inr e ↦ rw e refl
]

assembled-told : (c : Collected) → assembled c ≡ with_reasoning c.details (object (told c))
assembled-told c =
    let base = fields (
      ("role", string "assistant")
      ∷ ("content", null_or_text c.text)
      ∷ ("refusal", null_or_text c.refusal)
      ∷ []) in
    ap (λ v. with_reasoning c.details (with_values "annotations" c.annotations v))
      (with_values-object "tool_calls" c.calls base)
    ∙ ap (with_reasoning c.details)
        (with_values-object "annotations" c.annotations (with_fields "tool_calls" c.calls base))

-- The reasoning of a message changes no other field.
get-with_reasoning :
    (ds : List Value) (fs : Fields) (key : String)
    → str_eq "reasoning" key ≡ false
    → str_eq "reasoning_details" key ≡ false
    → get (with_reasoning ds (object fs)) key ≡ find_field key fs
get-with_reasoning ds fs key text_ne details_ne =
    let reasoning = joined (filter_map detail_text ds) in
    elim (Bool-cases (is_empty ds)) [
      | inl e ↦ rw e refl
      | inr e ↦ rw e (elim (Bool-cases (is_blank_text reasoning)) [
        | inl b ↦ rw b (find-put_other "reasoning_details" (list ds) key fs details_ne)
        | inr b ↦ rw b (
            find-put_other "reasoning_details" (list ds) key
              (put_field "reasoning" (string reasoning) fs) details_ne
            ∙ find-put_other "reasoning" (string reasoning) key fs text_ne)
      ])
    ]

find-told :
    (c : Collected)
    → (find_field "content" (told c) ≡ some (null_or_text c.text))
      × (find_field "refusal" (told c) ≡ some (null_or_text c.refusal))
      × (find_field "tool_calls" (told c) ≡ shown_calls c.calls)
unfolding put_field
find-told c = elim (Bool-cases (is_empty c.annotations)) [
  | inl a ↦ rw a (elim (Bool-cases (is_empty c.calls)) [
    | inl e ↦ rw e (refl, refl, refl)
    | inr e ↦ rw e (refl, refl, refl)
  ])
  | inr a ↦ rw a (elim (Bool-cases (is_empty c.calls)) [
    | inl e ↦ rw e (refl, refl, refl)
    | inr e ↦ rw e (refl, refl, refl)
  ])
]

get-assembled :
    (c : Collected) (key : String)
    → str_eq "reasoning" key ≡ false
    → str_eq "reasoning_details" key ≡ false
    → get (assembled c) key ≡ find_field key (told c)
get-assembled c key text_ne details_ne =
    ap (λ v. get v key) (assembled-told c)
    ∙ get-with_reasoning c.details (told c) key text_ne details_ne

-- What a message shows.
pub assembled-shows :
    (c : Collected)
    → (get (assembled c) "content" ≡ some (null_or_text c.text))
      × (get (assembled c) "refusal" ≡ some (null_or_text c.refusal))
      × (get (assembled c) "tool_calls" ≡ shown_calls c.calls)
assembled-shows c =
    let found = find-told c in
    (
      get-assembled c "content" refl refl ∙ found.0,
      get-assembled c "refusal" refl refl ∙ found.1,
      get-assembled c "tool_calls" refl refl ∙ found.2,
    )

abbrev text_parts : String → List Value
text_parts text =
    if is_blank_text text
    then []
    else obj (("type", string "output_text") ∷ ("text", string text) ∷ []) ∷ []

abbrev refused_parts : String → List Value
refused_parts text =
    if is_blank_text text
    then []
    else obj (("type", string "refusal") ∷ ("refusal", string text) ∷ []) ∷ []

content-null_or_text : (text : String) → content (null_or_text text) true ≡ ok (text_parts text)
unfolding content
content-null_or_text text = elim (Bool-cases (is_blank_text text)) [
  | inl e ↦ rw e refl
  | inr e ↦ rw e refl
]

refusal_parts-null_or_text :
    (text : String) → refusal_parts (not_null (some (null_or_text text))) ≡ ok (refused_parts text)
refusal_parts-null_or_text text = elim (Bool-cases (is_blank_text text)) [
  | inl e ↦ rw e refl
  | inr e ↦ rw e refl
]

call_items-shown : (ts : List CallText) → call_items (map shown_call ts) ≡ ok (map sent_call ts)
unfolding call_items call_item
call_items-shown [] = refl
call_items-shown (t ∷ ts) =
    ap (λ (m : Fallible (List Value)). m >>= λ items. ok (sent_call t ∷ items))
      (call_items-shown ts)

all_calls-shown :
    (ts : List CallText)
    → all_calls (not_null (shown_calls (map shown_call ts))) ≡ ok (map sent_call ts)
unfolding call_items
all_calls-shown [] = refl
all_calls-shown (t ∷ ts) =
    ap call_items (elements-items (map shown_call (t ∷ ts))) ∙ call_items-shown (t ∷ ts)

-- The items that a client's message is read as.
abbrev pub sent_items : String → String → List CallText → List Value
sent_items text refusal ts =
    message_items (text_parts text ++ refused_parts refusal) ++ map sent_call ts

pub visible_items-assembled :
    (c : Collected) (ts : List CallText)
    → c.calls ≡ map shown_call ts
    → visible_items (assembled c) ≡ ok (sent_items c.text c.refusal ts)
unfolding visible_items visible_from
visible_items-assembled c ts calls =
    let shows = assembled-shows c in
    rw
      (
        shows.0,
        shows.1,
        shows.2,
        calls,
        content-null_or_text c.text,
        refusal_parts-null_or_text c.refusal,
        all_calls-shown ts,
      )
      refl

collect_items-calls :
    (i : ℕ) (ts : List CallText) (c : Collected)
    → collect_items true i (map sent_call ts) c
      ≡ ok (record c { calls = c.calls ++ map shown_call ts })
unfolding collect_items collect_item
collect_items-calls i [] c = ap (λ cs. ok (record c { calls = cs })) (sym (append-nil c.calls))
collect_items-calls i (t ∷ ts) c =
    collect_items-calls (suc i) ts (record c { calls = c.calls ++ shown_call t ∷ [] })
    ∙ ap (λ cs. ok (record c { calls = cs }))
        (append_assoc c.calls (shown_call t ∷ []) (map shown_call ts))

abbrev pub shown : String → String → List CallText → Collected
shown text refusal ts = record {
  text = text;
  refusal = refusal;
  calls = map shown_call ts;
  details = [];
  annotations = [];
}

pub collect_items-sent :
    (text refusal : String) (ts : List CallText)
    → collect_items true 0 (sent_items text refusal ts) nothing ≡ ok (shown text refusal ts)
unfolding collect_items collect_item collect_parts collect_part
collect_items-sent String.[] String.[] ts = collect_items-calls 0 ts nothing
collect_items-sent String.[] (String.◌∷◌ d r) ts =
    collect_items-calls 1 ts (record nothing { refusal = join "" (String.◌∷◌ d r) })
    ∙ ap (λ t. ok (shown "" t ts)) (nil-append (String.◌∷◌ d r))
collect_items-sent (String.◌∷◌ c s) String.[] ts =
    collect_items-calls 1 ts (record nothing { text = join "" (String.◌∷◌ c s) })
    ∙ ap (λ t. ok (shown t "" ts)) (nil-append (String.◌∷◌ c s))
collect_items-sent (String.◌∷◌ c s) (String.◌∷◌ d r) ts =
    collect_items-calls 1 ts
      (record nothing { text = join "" (String.◌∷◌ c s); refusal = join "" (String.◌∷◌ d r) })
    ∙ ap (λ t. ok (shown t (join "" (String.◌∷◌ d r)) ts)) (nil-append (String.◌∷◌ c s))
    ∙ ap (λ t. ok (shown (String.◌∷◌ c s) t ts)) (nil-append (String.◌∷◌ d r))
