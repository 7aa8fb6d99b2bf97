-- ===== src/Replay.antt =====
-- src/proxy/replay.rs: what of Gemini is taken out of a request before it goes to OpenAI.
pub mod Once
mod Examples
use Prim.Native.Char.{code}
use hey_proxy.Base.{
  ℕ, String, Bool, true, false, not, ◌&&◌, ◌||◌, Option, none, some, List, [], ◌∷◌, ◌==◌, leb,
  if◌then◌else◌, filter, map, length, any, all, is_empty, str_eq,
}
use hey_proxy.Base.Text.{codes, strip_prefix, has_prefix}
use hey_proxy.Json.{Value, array, object, Fields, elements, items}
use hey_proxy.Json.Access.{find_field, index, get, as_str, is_text, is_some_and, one_of}
use hey_proxy.Json.Build.{is_some}
use hey_proxy.Json.Update.{put_field, remove_field}
use hey_proxy.Guidance.{trim_slashes, Applied}

abbrev pub carrier_prefix : String
carrier_prefix = "hey_gemini_v1."

-- `id.split('_')`, on code points
abbrev pub push_first : ℕ → List (List ℕ) → List (List ℕ)
push_first c [] = (c ∷ []) ∷ []
push_first c (part ∷ parts) = (c ∷ part) ∷ parts

unfoldable pub split_on : ℕ → List ℕ → List (List ℕ)
split_on sep [] = [] ∷ []
split_on sep (c ∷ cs) =
    let parts = split_on sep cs in if c == sep then [] ∷ parts else push_first c parts

abbrev pub is_lowercase : ℕ → Bool
is_lowercase c = leb 97 c && leb c 122

abbrev pub is_digit : ℕ → Bool
is_digit c = leb 48 c && leb c 57

abbrev pub is_hexdigit : ℕ → Bool
is_hexdigit c = is_digit c || (leb 97 c && leb c 102) || (leb 65 c && leb c 70)

abbrev pub is_number : List ℕ → Bool
is_number part = not (is_empty part) && all is_digit part

abbrev pub minted_parts : List (List ℕ) → Bool
minted_parts (first ∷ hex ∷ rest) =
    not (is_empty first)
    && all is_lowercase first
    && length hex == 32
    && all is_hexdigit hex
    && (length rest == 1 || length rest == 2)
    && all is_number rest
minted_parts _ = false

unfoldable pub gemini_item_id : String → Bool
unfolding split_on
gemini_item_id id = minted_parts (split_on 95 (codes id))

-- A reasoning that only Gemini can read.
unfoldable pub is_foreign : Value → Bool
unfolding strip_prefix
is_foreign item =
    is_text "reasoning" (index item "type")
    && is_some_and (has_prefix carrier_prefix) (as_str (index item "encrypted_content"))

abbrev pub is_minted : Value → Bool
is_minted item = is_some_and gemini_item_id (as_str (index item "id"))

unfoldable pub drop_id : Value → Value
unfolding remove_field gemini_item_id
drop_id (object fs) = if is_minted (object fs) then object (remove_field "id" fs) else object fs
drop_id item = item

abbrev pub retained : List Value → List Value
retained input = filter (λ item. not (is_foreign item)) input

-- The request after it, where `input` is an array.
unfoldable pub clean : List Value → Fields → Applied
unfolding is_foreign drop_id gemini_item_id put_field
clean input fs =
    let kept = retained input in
    (
      not (length kept == length input) || any is_minted kept,
      object (put_field "input" (array (items (map drop_id kept))) fs),
    )

abbrev pub with_input : Fields → Option Value → Applied
with_input fs (some (array vs)) = clean (elements vs) fs
with_input fs _ = (false, object fs)

abbrev pub is_openai : Option String → Bool
is_openai (some model) = not (has_prefix "gemini/" model)
is_openai none = false

abbrev pub is_responses : String → Bool
is_responses path = one_of ("/v1/responses" ∷ "/responses" ∷ []) (trim_slashes path)

-- Whether the request was changed, and the request after it.
unfoldable pub for_openai : String → Value → Applied
unfolding clean strip_prefix trim_slashes
for_openai path (object fs) =
    if is_responses path && is_openai (as_str (index (object fs) "model"))
    then with_input fs (find_field "input" fs)
    else (false, object fs)
for_openai path request = (false, request)
