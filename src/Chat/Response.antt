-- ===== src/Chat/Response.antt =====
-- src/proxy/chat/response.rs: an answer of the Responses API as a chat completion. `clean_headers`,
-- which edits HTTP headers, is not modelled.
use hey_proxy.Base.{
  ℕ, suc, ◌+◌, ◌*◌, String, Bool, true, Option, none, some, List, [], ◌∷◌, ◌++◌, if◌then◌else◌,
  str_eq, is_empty, any, ok, err, ◌>>=◌, ◌>>◌, ensure,
}
use hey_proxy.Base.Text.{join, strip_prefix, has_prefix}
use hey_proxy.Json.{Value, null, string}
use hey_proxy.Json.Update.{put_field}
use hey_proxy.Json.Access.{
  get, index, pointer, as_str, as_array, is_null, is_text, is_some_and, or_else,
}
use hey_proxy.Json.Build.{
  obj, nat, list, each, unwrap_or, is_string, is_blank_text, joined, filter_map, set_field,
}
use hey_proxy.Messages.Response.{Fallible, or_err}

abbrev pub then_str : Option Value → Option String
then_str (some v) = as_str v
then_str none = none

unfoldable pub usage : Value → Value
usage v =
    if is_null v
    then null
    else obj (
        ("prompt_tokens", index v "input_tokens")
        ∷ ("completion_tokens", index v "output_tokens")
        ∷ ("total_tokens", index v "total_tokens")
        ∷ ("prompt_tokens_details", index v "input_tokens_details")
        ∷ ("completion_tokens_details", index v "output_tokens_details")
        ∷ [])

abbrev pub gemini_mark : String
gemini_mark = "hey_gemini_v1."

-- The texts of the parts of a field.
abbrev pub texts : Value → String
texts parts = joined (filter_map (λ p. as_str (index p "text")) (each parts))

abbrev pub format_of : Option String → String
format_of carrier =
    if is_some_and (has_prefix gemini_mark) carrier
    then "google-gemini-v1"
    else "openai-responses-v1"

abbrev pub summary_detail : String → Value → String → ℕ → List Value
summary_detail summary id format i =
    if is_blank_text summary
    then []
    else obj (
        ("type", string "reasoning.summary")
        ∷ ("summary", string summary)
        ∷ ("id", id)
        ∷ ("format", string format)
        ∷ ("index", nat (i * 3))
        ∷ [])
      ∷ []

abbrev pub text_detail : String → Value → String → ℕ → List Value
text_detail text id format i =
    if is_blank_text text
    then []
    else obj (
        ("type", string "reasoning.text")
        ∷ ("text", string text)
        ∷ ("signature", null)
        ∷ ("id", id)
        ∷ ("format", string format)
        ∷ ("index", nat (i * 3 + 1))
        ∷ [])
      ∷ []

abbrev pub encrypted_detail : Option String → Value → String → ℕ → List Value
encrypted_detail none id format i = []
encrypted_detail (some carrier) id format i =
    obj (
      ("type", string "reasoning.encrypted")
      ∷ ("data", string carrier)
      ∷ ("id", id)
      ∷ ("format", string format)
      ∷ ("index", nat (i * 3 + 2))
      ∷ [])
    ∷ []

unfoldable pub reasoning_details : Value → ℕ → List Value
unfolding strip_prefix
reasoning_details item i =
    let carrier = then_str (get item "encrypted_content") in
    let format = format_of carrier in
    let id = index item "id" in
    summary_detail (texts (index item "summary")) id format i
    ++ (text_detail (texts (index item "content")) id format i
        ++ encrypted_detail carrier id format i)

-- What `message` collects: the text, the refusal, the calls, the details and the annotations.
pub record Collected : Type 0 where
  pub text : String
  pub refusal : String
  pub calls : List Value
  pub details : List Value
  pub annotations : List Value

abbrev pub nothing : Collected
nothing = record { text = ""; refusal = ""; calls = []; details = []; annotations = [] }

abbrev pub add_text : Option String → Value → Collected → Fallible Collected
add_text none part c = err "Response text must be a string"
add_text (some text) part c = ok (record c {
  text = join c.text text;
  annotations = c.annotations ++ each (index part "annotations");
})

abbrev pub is_shown_text : String → Bool
is_shown_text kind = if str_eq kind "output_text" then true else str_eq kind "input_text"

unfoldable pub collect_part : Option String → Value → Collected → Fallible Collected
collect_part none part c = err "Response content cannot be represented as a chat message"
collect_part (some kind) part c =
    if is_shown_text kind
    then add_text (as_str (index part "text")) part c
    else if str_eq kind "refusal"
    then ok (record c { refusal = join c.refusal (unwrap_or (as_str (index part "refusal")) "") })
    else err "Response content cannot be represented as a chat message"

unfoldable pub collect_parts : List Value → Collected → Fallible Collected
unfolding collect_part
collect_parts [] c = ok c
collect_parts (part ∷ parts) c =
    collect_part (as_str (index part "type")) part c >>= collect_parts parts

abbrev pub call_of : Value → Value
call_of item = obj (
    ("id", index item "call_id")
    ∷ ("type", string "function")
    ∷ ("function", obj (("name", index item "name") ∷ ("arguments", index item "arguments") ∷ []))
    ∷ [])

unfoldable pub collect_item : Bool → ℕ → Option String → Value → Collected → Fallible Collected
unfolding collect_parts reasoning_details
collect_item exclude i none item c =
    err "Response output type cannot be represented by the chat shim"
collect_item exclude i (some kind) item c =
    if str_eq kind "message"
    then (or_err (as_array (index item "content")) "Response message lacks content" >>= λ parts.
        collect_parts parts c)
    else if str_eq kind "function_call"
    then ok (record c { calls = c.calls ++ call_of item ∷ [] })
    else if str_eq kind "reasoning"
    then ok (if exclude then c else record c { details = c.details ++ reasoning_details item i })
    else err "Response output type cannot be represented by the chat shim"

unfoldable pub collect_items : Bool → ℕ → List Value → Collected → Fallible Collected
unfolding collect_item
collect_items exclude i [] c = ok c
collect_items exclude i (item ∷ items) c =
    collect_item exclude i (as_str (index item "type")) item c
    >>= collect_items exclude (suc i) items

abbrev pub null_or_text : String → Value
null_or_text text = if is_blank_text text then null else string text

-- `if !values.is_empty() { result[key] = json!(values) }`
abbrev pub with_values : String → List Value → Value → Value
with_values key vs result = if is_empty vs then result else set_field key (list vs) result

abbrev pub detail_text : Value → Option String
detail_text d = or_else (as_str (index d "summary")) (as_str (index d "text"))

abbrev pub with_reasoning : List Value → Value → Value
with_reasoning details result =
    let reasoning = joined (filter_map detail_text details) in
    if is_empty details
    then result
    else set_field "reasoning_details" (list details) (
        if is_blank_text reasoning then result else set_field "reasoning" (string reasoning) result)

abbrev pub assembled : Collected → Value
assembled c = with_reasoning c.details (
    with_values "annotations" c.annotations (
      with_values "tool_calls" c.calls (
        obj (
          ("role", string "assistant")
          ∷ ("content", null_or_text c.text)
          ∷ ("refusal", null_or_text c.refusal)
          ∷ []))))

unfoldable pub message : List Value → Bool → Fallible Value
unfolding collect_items put_field
message output exclude = collect_items exclude 0 output nothing >>= λ c. ok (assembled c)

abbrev pub is_call : Value → Bool
is_call item = is_text "function_call" (index item "type")

abbrev pub incomplete_reason : Option String → Fallible String
incomplete_reason reason =
    if is_some_and (λ r. str_eq r "max_output_tokens") reason
    then ok "length"
    else if is_some_and (λ r. str_eq r "content_filter") reason
    then ok "content_filter"
    else err "Response ended incomplete without a supported finish reason"

unfoldable pub finish_reason : Value → Fallible String
finish_reason v =
    if is_text "incomplete" (index v "status")
    then incomplete_reason (then_str (pointer v ("incomplete_details" ∷ "reason" ∷ [])))
    else if is_text "completed" (index v "status")
    then ok (if any is_call (each (index v "output")) then "tool_calls" else "stop")
    else err "Response did not complete"

unfoldable pub completion : Value → String → Bool → Fallible Value
unfolding message finish_reason usage
completion v model exclude = do
  output ← or_err (as_array (index v "output")) "Response lacks output"
  ensure (is_string (index v "id")) "Response lacks id"
  answer ← message output exclude
  reason ← finish_reason v
  ok (
      obj (
        ("id", string (join "chatcmpl-" (unwrap_or (as_str (index v "id")) "")))
        ∷ ("object", string "chat.completion")
        ∷ ("created", index v "created_at")
        ∷ ("model", string model)
        ∷ (
          "choices",
          list (
              obj (
                ("index", nat 0)
                ∷ ("message", answer)
                ∷ ("finish_reason", string reason)
                ∷ ("logprobs", null)
                ∷ [])
              ∷ []),
        )
        ∷ ("usage", usage (index v "usage"))
        ∷ []))
