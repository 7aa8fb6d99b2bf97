-- ===== src/Chat/Request.antt =====
-- src/proxy/chat/request.rs, `visible_items`: what an assistant said, as items of the Responses API. The
-- fields of a file are read in the order of the object, which decides only which of several errors is told.
pub mod Replayed
pub mod Visible
mod Examples
use hey_proxy.Base.{
  String, Bool, true, false, not, ◌&&◌, Option, none, some, List, [], ◌∷◌, ◌++◌, if◌then◌else◌,
  str_eq, is_empty, ok, err, ◌>>=◌, ◌>>◌, ensure,
}
use hey_proxy.Base.Text.{join}
use hey_proxy.Json.{Value, string, null, array, object, Fields, end, field, elements}
use hey_proxy.Json.Update.{put_field}
use hey_proxy.Json.Access.{get, index, as_str, as_array, is_null, is_text, one_of}
use hey_proxy.Json.Build.{obj, list, is_string, set_field}
use hey_proxy.Messages.Response.{Fallible, or_err}
use hey_proxy.Chat.Response.{then_str}

-- `string`
abbrev pub text_at : Value → String → Fallible String
text_at v key = or_err (then_str (get v key)) (join key " must be a string")

abbrev pub kind_of : Bool → String
kind_of true = "output_text"
kind_of false = "input_text"

abbrev pub with_detail : Option Value → Value → Value
with_detail (some detail) item = set_field "detail" detail item
with_detail none item = item

unfoldable pub file_fields : Fields → Value → Fallible Value
unfolding put_field
file_fields end item = ok item
file_fields (field key v fs) item =
    ensure (one_of ("file_id" ∷ "file_data" ∷ "filename" ∷ []) key)
      (join "Unsupported file field " key)
    >> file_fields fs (set_field key v item)

abbrev pub file_item : Value → Fallible Value
file_item (object fs) = file_fields fs (obj (("type", string "input_file") ∷ []))
file_item _ = err "file must be an object"

unfoldable pub content_part : Bool → String → Value → Fallible Value
unfolding file_fields put_field
content_part assistant kind part =
    if str_eq kind "text"
    then (text_at part "text" >>= λ text.
        ok (obj (("type", string (kind_of assistant)) ∷ ("text", string text) ∷ [])))
    else if str_eq kind "image_url" && not assistant
    then (text_at (index part "image_url") "url" >>= λ url. ok (
        with_detail (get (index part "image_url") "detail")
          (obj (("type", string "input_image") ∷ ("image_url", string url) ∷ []))))
    else if str_eq kind "file" && not assistant
    then file_item (index part "file")
    else if str_eq kind "refusal" && assistant
    then (text_at part "refusal" >>= λ refusal.
        ok (obj (("type", string "refusal") ∷ ("refusal", string refusal) ∷ [])))
    else err (join "Unsupported chat content type " kind)

unfoldable pub content_parts : Bool → List Value → Fallible (List Value)
unfolding content_part
content_parts assistant [] = ok []
content_parts assistant (part ∷ parts) = do
  kind ← text_at part "type"
  item ← content_part assistant kind part
  items ← content_parts assistant parts
  ok (item ∷ items)

unfoldable pub content : Value → Bool → Fallible (List Value)
unfolding content_parts
content null assistant = ok []
content (string text) assistant =
    ok (obj (("type", string (kind_of assistant)) ∷ ("text", string text) ∷ []) ∷ [])
content (array vs) assistant = content_parts assistant (elements vs)
content _ assistant = err "message content must be text or an array"

-- `.filter(|v| !v.is_null())`
abbrev pub not_null : Option Value → Option Value
not_null (some v) = if is_null v then none else some v
not_null none = none

abbrev pub refusal_parts : Option Value → Fallible (List Value)
refusal_parts none = ok []
refusal_parts (some refusal) =
    ensure (is_string refusal) "refusal must be a string"
    >> ok (obj (("type", string "refusal") ∷ ("refusal", refusal) ∷ []) ∷ [])

abbrev pub message_items : List Value → List Value
message_items parts =
    if is_empty parts
    then []
    else obj
        (("type", string "message") ∷ ("role", string "assistant") ∷ ("content", list parts) ∷ [])
      ∷ []

abbrev pub function_call : String → String → String → Value
function_call id name args = obj (
    ("type", string "function_call")
    ∷ ("call_id", string id)
    ∷ ("name", string name)
    ∷ ("arguments", string args)
    ∷ [])

unfoldable pub call_item : Value → Fallible Value
call_item call = do
  ensure (is_text "function" (index call "type")) "Only function tool calls are supported"
  id ← text_at call "id"
  name ← text_at (index call "function") "name"
  args ← text_at (index call "function") "arguments"
  ok (function_call id name args)

unfoldable pub call_items : List Value → Fallible (List Value)
unfolding call_item
call_items [] = ok []
call_items (call ∷ calls) = do item ← call_item call; items ← call_items calls; ok (item ∷ items)

abbrev pub all_calls : Option Value → Fallible (List Value)
all_calls none = ok []
all_calls (some calls) = or_err (as_array calls) "tool_calls must be an array" >>= call_items

-- The items of a message, from its content, its refusal and its calls.
unfoldable pub visible_from : Value → Option Value → Option Value → Fallible (List Value)
unfolding content call_items
visible_from said refused called = do
  parts ← content said true
  refusal ← refusal_parts refused
  calls ← all_calls called
  ok (message_items (parts ++ refusal) ++ calls)

unfoldable pub visible_items : Value → Fallible (List Value)
unfolding visible_from
visible_items message =
    visible_from (index message "content") (not_null (get message "refusal"))
      (not_null (get message "tool_calls"))
