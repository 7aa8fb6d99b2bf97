-- ===== src/Messages/Response.antt =====
-- src/proxy/messages/response.rs: answers of the shared facade as answers of the Messages API.
-- `clean_headers`, which edits HTTP headers, is not modelled.
use hey_proxy.Base.{
  ℕ, ◌-◌, String, ◌||◌, ◌&&◌, Option, none, some, List, [], ◌∷◌, ◌++◌, ◌==◌, leb, if◌then◌else◌,
  str_eq, is_empty, all, Result, ok, err, ◌>>=◌, ◌>>◌, ensure,
}
use hey_proxy.Base.Text.{join, strip_prefix}
use hey_proxy.Json.{Value, null, string}
use hey_proxy.Json.Access.{get, index, as_str, as_u64, as_array, or_else}
use hey_proxy.Json.Build.{
  obj, nat, list, at, each, unwrap_or, is_object, filled, is_blank_text, joined, filter_map,
}
use hey_proxy.Messages.Codec.{Codec}

-- An error is its message.
abbrev pub Fallible : Type 0 → Type 0
Fallible A = Result String A

abbrev pub carrier : String
carrier = "hey_messages_v1."

-- The kind of an error by the HTTP status.
unfoldable pub error_kind : ℕ → String
error_kind status =
    if status == 401
    then "authentication_error"
    else if status == 403
    then "permission_error"
    else if status == 404
    then "not_found_error"
    else if status == 413
    then "request_too_large"
    else if status == 429
    then "rate_limit_error"
    else if status == 503 || status == 529
    then "overloaded_error"
    else if leb 400 status && leb status 499
    then "invalid_request_error"
    else "api_error"

unfoldable pub error_value : ℕ → String → Value
unfolding error_kind
error_value status message = obj (
    ("type", string "error")
    ∷ ("error", obj (("type", string (error_kind status)) ∷ ("message", string message) ∷ []))
    ∷ [])

-- The text of one piece of reasoning.
abbrev pub detail_text : Value → Option String
detail_text d = elim (or_else (get d "summary") (get d "text")) [ some v ↦ as_str v | none ↦ none ]

unfoldable pub reasoning_text : List Value → String
reasoning_text details = joined (filter_map detail_text details)

abbrev pub or_zero : Option ℕ → ℕ
or_zero n = unwrap_or n 0

-- Subtraction on ℕ stops at 0, as `saturating_sub` does.
unfoldable pub usage : Value → Value
usage value =
    let input = or_zero (as_u64 (index value "prompt_tokens")) in
    let details = index value "prompt_tokens_details" in
    let cached = or_zero (as_u64 (index details "cached_tokens")) in
    let written = or_zero (as_u64 (index details "cache_write_tokens")) in
    obj (
      ("input_tokens", nat (input - cached - written))
      ∷ ("output_tokens", nat (or_zero (as_u64 (index value "completion_tokens"))))
      ∷ ("cache_creation_input_tokens", nat written)
      ∷ ("cache_read_input_tokens", nat cached)
      ∷ [])

unfoldable pub stop : String → Fallible String
stop reason =
    if str_eq reason "stop"
    then ok "end_turn"
    else if str_eq reason "tool_calls"
    then ok "tool_use"
    else if str_eq reason "length"
    then ok "max_tokens"
    else if str_eq reason "content_filter"
    then ok "refusal"
    else err "Unsupported upstream finish reason"

abbrev pub text_block : Option String → List Value
text_block (some text) = obj (("type", string "text") ∷ ("text", string text) ∷ []) ∷ []
text_block none = []

abbrev pub or_err : {A : Type 0} → Option A → String → Fallible A
or_err (some a) e = ok a
or_err none e = err e

module _ (codec : Codec) where
  unfoldable pub encode_details : List Value → String
  encode_details details = join carrier (codec.encode (codec.to_vec details))

  unfoldable pub decode_details : String → Fallible (List Value)
  unfolding strip_prefix
  decode_details text = do
    encoded ←
        or_err (strip_prefix carrier text)
          "Thinking replay requires the original signature/data from this Messages shim"
    decoded ← or_err (codec.decode encoded) "Invalid thinking replay data"
    details ← or_err (codec.from_slice decoded) "Invalid thinking replay data"
    ensure (all is_object details) "Invalid thinking replay details"
    ok details

  -- The block of a reasoning: redacted, if it has no text.
  unfoldable pub thinking_block : List Value → Value
  unfolding reasoning_text encode_details
  thinking_block details =
      let text = reasoning_text details in
      let replay = encode_details details in
      if is_blank_text text
      then obj (("type", string "redacted_thinking") ∷ ("data", string replay) ∷ [])
      else obj (
          ("type", string "thinking")
          ∷ ("thinking", string text)
          ∷ ("signature", string replay)
          ∷ [])

  unfoldable pub thinking : List Value → Option Value
  unfolding thinking_block
  thinking details = if is_empty details then none else some (thinking_block details)

  abbrev pub tool_block : Value → Fallible Value
  tool_block call =
      let function = index call "function" in
      do
        input ←
            or_err (codec.from_str (unwrap_or (as_str (index function "arguments")) ""))
              "Upstream tool arguments are not complete JSON"
        ensure (is_object input) "Upstream tool arguments must be an object"
        ok (
            obj (
              ("type", string "tool_use")
              ∷ ("id", index call "id")
              ∷ ("name", index function "name")
              ∷ ("input", input)
              ∷ []))

  unfoldable pub tool_blocks : List Value → Fallible (List Value)
  tool_blocks [] = ok []
  tool_blocks (call ∷ calls) = do
    block ← tool_block call
    blocks ← tool_blocks calls
    ok (block ∷ blocks)

  abbrev pub thinking_blocks : Option (List Value) → List Value
  thinking_blocks (some details) = elim (thinking details) [ some block ↦ block ∷ [] | none ↦ [] ]
  thinking_blocks none = []

  unfoldable pub convert : Value → Fallible Value
  unfolding thinking tool_blocks stop usage
  convert value =
      let choice = at (index value "choices") 0 in
      let message = index choice "message" in
      do
        tools ← tool_blocks (each (index message "tool_calls"))
        reason ← stop (unwrap_or (as_str (index choice "finish_reason")) "")
        id ← or_err (as_str (index value "id")) "Upstream reply lacks id"
        ok (
            obj (
              ("id", string (join "msg_" id))
              ∷ ("type", string "message")
              ∷ ("role", string "assistant")
              ∷ ("model", index value "model")
              ∷ (
                "content",
                list (
                    thinking_blocks (as_array (index message "reasoning_details"))
                    ++ (text_block (filled (as_str (index message "content")))
                        ++ (text_block (filled (as_str (index message "refusal"))) ++ tools))),
              )
              ∷ ("stop_reason", string reason)
              ∷ ("stop_sequence", null)
              ∷ ("usage", usage (index value "usage"))
              ∷ []))
