-- ===== src/Chat/Request/Examples.antt =====
-- A message with a text and a call, sent back unaltered, and its tests.
use hey_proxy.Base.{false, List, [], ◌∷◌, ◌≡◌, refl, ok, All}
use hey_proxy.Base.Text.{strip_prefix}
use hey_proxy.Json.{Value, string, null}
use hey_proxy.Json.Update.{put_field}
use hey_proxy.Json.Build.{obj, list, nat}
use hey_proxy.Chat.Response.{
  reasoning_details, message, collect_items, collect_item, collect_parts, collect_part,
}
use hey_proxy.Chat.Request.{
  visible_items, visible_from, content, call_items, call_item, function_call,
}
use hey_proxy.Chat.Request.Visible.{IsPlain, IsReread, visible_items-message}

abbrev spoken : Value
spoken = obj (
    ("type", string "message")
    ∷ ("content", list (obj (("type", string "output_text") ∷ ("text", string "Look.") ∷ []) ∷ []))
    ∷ [])

abbrev output : List Value
output =
    obj (
      ("type", string "reasoning")
      ∷ ("id", string "r1")
      ∷ ("encrypted_content", string "sealed")
      ∷ [])
    ∷ spoken
    ∷ function_call "c1" "look" "{}"
    ∷ []

abbrev call : Value
call = obj (
    ("id", string "c1")
    ∷ ("type", string "function")
    ∷ ("function", obj (("name", string "look") ∷ ("arguments", string "{}") ∷ []))
    ∷ [])

abbrev detail : Value
detail = obj (
    ("type", string "reasoning.encrypted")
    ∷ ("data", string "sealed")
    ∷ ("id", string "r1")
    ∷ ("format", string "openai-responses-v1")
    ∷ ("index", nat 2)
    ∷ [])

abbrev told : Value
told = obj (
    ("role", string "assistant")
    ∷ ("content", string "Look.")
    ∷ ("refusal", null)
    ∷ ("tool_calls", list (call ∷ []))
    ∷ ("reasoning_details", list (detail ∷ []))
    ∷ [])

made : message output false ≡ ok told
unfolding message collect_items collect_item collect_parts collect_part reasoning_details
    strip_prefix put_field
made = refl

read_back :
    visible_items told
    ≡ ok (
        obj (
          ("type", string "message")
          ∷ ("role", string "assistant")
          ∷ (
            "content",
            list (obj (("type", string "output_text") ∷ ("text", string "Look.") ∷ []) ∷ []),
          )
          ∷ [])
        ∷ function_call "c1" "look" "{}"
        ∷ [])
unfolding visible_items visible_from content call_items call_item
read_back = refl

output-IsPlain : All IsPlain output
output-IsPlain = (λ e. cc, (λ e. cc, (λ e. refl, tt)))

visible_items-message_example : IsReread told
visible_items-message_example = visible_items-message false output told output-IsPlain made
