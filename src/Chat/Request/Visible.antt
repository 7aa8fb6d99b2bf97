-- ===== src/Chat/Request/Visible.antt =====
-- The proxy accepts the messages that it made: what a client sends back unaltered is read as the same message.
use mathlib.Core.Path.{subst}
use mathlib.Core.List.{map-append}
use hey_proxy.Base.{
  ℕ, suc, String, Bool, true, false, ◌&&◌, Option, none, some, List, [], ◌∷◌, ◌++◌, ◌≡◌, refl, sym,
  ap, ◌∙◌, if◌then◌else◌, ok, err, ◌>>=◌, All, map, str_eq, eq_iff, &&-eq-true,
}
use hey_proxy.Json.{Value, string, null, bool, number, array, object}
use hey_proxy.Json.Access.{get, index, as_str, as_array}
use hey_proxy.Json.Build.{is_string}
use hey_proxy.Messages.Response.{Fallible, or_err}
use hey_proxy.Chat.Response.{
  reasoning_details, Collected, nothing, assembled, collect_items, collect_item, collect_parts,
  collect_part, add_text, is_shown_text, call_of, message,
}
use hey_proxy.Chat.Request.{visible_items}
use hey_proxy.Chat.Request.Replayed.{
  CallText, shown_call, sent_items, shown, assembled-shows, visible_items-assembled,
  collect_items-sent, shown_calls,
}

-- A call whose identity, name and arguments are texts.
abbrev pub is_plain : Value → Bool
is_plain item =
    is_string (index item "call_id")
    && is_string (index item "name")
    && is_string (index item "arguments")

abbrev pub IsPlain : Value → Type 0
IsPlain item = as_str (index item "type") ≡ some "function_call" → is_plain item ≡ true

-- What is collected has calls in text only.
record IsShown (c : Collected) : Type 0 where
  texts : List CallText
  calls : c.calls ≡ map shown_call texts

abbrev Collects : (Collected → Type 0) → Fallible Collected → Type 0
Collects P (ok c) = P c
Collects P (err e) = Unit {0}

cond-Collects :
    (P : Collected → Type 0) (b : Bool) (x y : Fallible Collected)
    → (b ≡ true → Collects P x)
    → Collects P y
    → Collects P (if b then x else y)
cond-Collects P true x y h g = h refl
cond-Collects P false x y h g = g

bind-Collects :
    {A : Type 0} (P : Collected → Type 0) (m : Fallible A) (next : A → Fallible Collected)
    → ((x : A) → Collects P (next x))
    → Collects P (m >>= next)
bind-Collects P (ok x) next h = h x
bind-Collects P (err e) next h = tt

text_of_is_string : (v : Value) → is_string v ≡ true → (text : String) × (v ≡ string text)
text_of_is_string (string text) h = (text, refl)
text_of_is_string null h = cc
text_of_is_string (bool b) h = cc
text_of_is_string (number n) h = cc
text_of_is_string (array vs) h = cc
text_of_is_string (object fs) h = cc

shown_call_of_plain :
    (item : Value) → is_plain item ≡ true → (t : CallText) × (call_of item ≡ shown_call t)
shown_call_of_plain item h =
    let first =
      &&-eq-true (is_string (index item "call_id") && is_string (index item "name"))
        (is_string (index item "arguments")) h in
    let rest =
      &&-eq-true (is_string (index item "call_id")) (is_string (index item "name")) first.0 in
    let id = text_of_is_string (index item "call_id") rest.0 in
    let name = text_of_is_string (index item "name") rest.1 in
    let args = text_of_is_string (index item "arguments") first.1 in
    ((id.0, name.0, args.0), rw (id.1, name.1, args.1) refl)

add_text-IsShown :
    (o : Option String) (part : Value) (c : Collected)
    → IsShown c
    → Collects IsShown (add_text o part c)
add_text-IsShown none part c s = tt
add_text-IsShown (some text) part c s = record { texts = s.texts; calls = s.calls }

collect_part-IsShown :
    (kind : Option String) (part : Value) (c : Collected)
    → IsShown c
    → Collects IsShown (collect_part kind part c)
unfolding collect_part
collect_part-IsShown none part c s = tt
collect_part-IsShown (some kind) part c s =
    cond-Collects IsShown (is_shown_text kind) _ _
      (λ e. add_text-IsShown (as_str (index part "text")) part c s)
      (cond-Collects IsShown (str_eq kind "refusal") _
        (err "Response content cannot be represented as a chat message")
        (λ e. record { texts = s.texts; calls = s.calls }) tt)

then-IsShown :
    (m : Fallible Collected) (next : Collected → Fallible Collected)
    → Collects IsShown m
    → ((c : Collected) → IsShown c → Collects IsShown (next c))
    → Collects IsShown (m >>= next)
then-IsShown (ok c) next s h = h c s
then-IsShown (err e) next s h = tt

collect_parts-IsShown :
    (parts : List Value) (c : Collected) → IsShown c → Collects IsShown (collect_parts parts c)
unfolding collect_parts
collect_parts-IsShown [] c s = s
collect_parts-IsShown (part ∷ parts) c s =
    then-IsShown (collect_part (as_str (index part "type")) part c) (collect_parts parts)
      (collect_part-IsShown (as_str (index part "type")) part c s) (collect_parts-IsShown parts)

reasoned-IsShown :
    (exclude : Bool) (ds : List Value) (c : Collected)
    → IsShown c
    → IsShown (if exclude then c else record c { details = ds })
reasoned-IsShown true ds c s = s
reasoned-IsShown false ds c s = record { texts = s.texts; calls = s.calls }

collect_item-IsShown :
    (exclude : Bool) (i : ℕ) (kind : Option String) (item : Value) (c : Collected)
    → (kind ≡ some "function_call" → is_plain item ≡ true)
    → IsShown c
    → Collects IsShown (collect_item exclude i kind item c)
unfolding collect_item
collect_item-IsShown exclude i none item c plain s = tt
collect_item-IsShown exclude i (some kind) item c plain s =
    cond-Collects IsShown (str_eq kind "message") _ _
      (λ e.
        bind-Collects IsShown
          (or_err (as_array (index item "content")) "Response message lacks content")
          (λ parts. collect_parts parts c) λ parts. collect_parts-IsShown parts c s)
      (cond-Collects IsShown (str_eq kind "function_call") _ _
        (λ e.
          let call =
            shown_call_of_plain item (plain (ap some ((eq_iff kind "function_call").0 e))) in
          record {
            texts = s.texts ++ call.0 ∷ [];
            calls =
                ap (λ cs. cs ++ call_of item ∷ []) s.calls
                ∙ ap (λ v. map shown_call s.texts ++ v ∷ []) call.1
                ∙ sym (map-append shown_call s.texts (call.0 ∷ []));
          })
        (cond-Collects IsShown (str_eq kind "reasoning") _
          (err "Response output type cannot be represented by the chat shim")
          (λ e. reasoned-IsShown exclude (c.details ++ reasoning_details item i) c s) tt))

collect_items-IsShown :
    (exclude : Bool) (i : ℕ) (output : List Value) (c : Collected)
    → All IsPlain output
    → IsShown c
    → Collects IsShown (collect_items exclude i output c)
unfolding collect_items
collect_items-IsShown exclude i [] c plain s = s
collect_items-IsShown exclude i (item ∷ output) c plain s =
    then-IsShown (collect_item exclude i (as_str (index item "type")) item c)
      (collect_items exclude (suc i) output)
      (collect_item-IsShown exclude i (as_str (index item "type")) item c plain.0 s)
      λ d t. collect_items-IsShown exclude (suc i) output d plain.1 t

-- What the proxy compares of two messages.
abbrev pub IsSame : Value → Value → Type 0
IsSame m n =
    (get m "content" ≡ get n "content")
    × (get m "tool_calls" ≡ get n "tool_calls")
    × (get m "refusal" ≡ get n "refusal")

abbrev pub IsReread : Value → Type 0
IsReread m =
    (visible : List Value) × (n : Value) × (visible_items m ≡ ok visible)
    × (message visible true ≡ ok n)
    × IsSame n m

assembled-IsReread : (c : Collected) → IsShown c → IsReread (assembled c)
unfolding message
assembled-IsReread c s =
    let again = shown c.text c.refusal s.texts in
    let mine = assembled-shows c in
    let theirs = assembled-shows again in
    (
      sent_items c.text c.refusal s.texts,
      assembled again,
      visible_items-assembled c s.texts s.calls,
      ap (λ (m : Fallible Collected). m >>= λ d. ok (assembled d))
          (collect_items-sent c.text c.refusal s.texts),
      (
        theirs.0 ∙ sym mine.0,
        theirs.2 ∙ sym (mine.2 ∙ ap shown_calls s.calls),
        theirs.1 ∙ sym mine.1,
      ),
    )

result-IsReread :
    (r : Fallible Collected) (m : Value)
    → Collects IsShown r
    → (r >>= λ c. ok (assembled c)) ≡ ok m
    → IsReread m
result-IsReread (ok c) m s e =
    let is : assembled c ≡ m = cc in subst IsReread is (assembled-IsReread c s)
result-IsReread (err x) m s e = cc

-- If a message was made of an output whose calls have texts as identity, name and arguments, with its
-- reasoning or without, then the message, sent back, is read as items of which a message with the same
-- content, calls and refusal is made.
pub visible_items-message :
    (exclude : Bool) (output : List Value) (m : Value)
    → All IsPlain output
    → message output exclude ≡ ok m
    → IsReread m
unfolding message
visible_items-message exclude output m plain e =
    result-IsReread (collect_items exclude 0 output nothing) m
      (collect_items-IsShown exclude 0 output nothing plain (record { texts = []; calls = refl })) e
