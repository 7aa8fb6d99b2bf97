-- ===== src/Replay/Examples.antt =====
-- Requests with items of Gemini, and the tests of what is taken out of them.
use hey_proxy.Base.{String, true, false, List, [], ◌∷◌, ◌≡◌, refl}
use hey_proxy.Base.Text.{strip_prefix}
use hey_proxy.Json.{Value, string}
use hey_proxy.Json.Update.{put_field, remove_field}
use hey_proxy.Json.Build.{obj, list}
use hey_proxy.Guidance.{trim_slashes}
use hey_proxy.Replay.{for_openai, clean, is_foreign, drop_id, gemini_item_id, split_on}
use hey_proxy.Replay.Once.{for_openai-once}

abbrev minted : String
minted = "msg_0123456789abcdef0123456789ABCDEF_0"

ids :
    (gemini_item_id minted ≡ true)
    × (gemini_item_id "fc_0123456789abcdef0123456789abcdef_2_11" ≡ true)
    × (gemini_item_id "msg_0123456789abcdef0123456789abcdef" ≡ false)
    × (gemini_item_id "rs_0123_0" ≡ false)
unfolding gemini_item_id split_on
ids = (refl, refl, refl, refl)

abbrev foreign : Value
foreign =
    obj (("type", string "reasoning") ∷ ("encrypted_content", string "hey_gemini_v1.AAAA") ∷ [])

abbrev request : List Value → Value
request input = obj (("model", string "gpt") ∷ ("input", list input) ∷ [])

abbrev history : List Value
history = foreign ∷ obj (("id", string minted) ∷ ("type", string "message") ∷ []) ∷ []

history_cleaned :
    for_openai "/v1/responses/" (request history)
    ≡ (true, request (obj (("type", string "message") ∷ []) ∷ []))
unfolding for_openai clean is_foreign drop_id gemini_item_id split_on strip_prefix trim_slashes
    put_field remove_field
history_cleaned = refl

for_openai-once_example :
    for_openai "/v1/responses" (for_openai "/v1/responses" (request history)).1
    ≡ (false, (for_openai "/v1/responses" (request history)).1)
for_openai-once_example = for_openai-once "/v1/responses" (request history)
