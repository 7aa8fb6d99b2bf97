-- ===== src/Messages/Native/End.antt =====
-- src/proxy/messages/gemini_stream.rs, `end`: the end of a stream, with `visible` of gemini_request.rs,
-- and the loop of gemini.rs that passes the events on.
use hey_proxy.Base.{
  ℕ, suc, String, Bool, not, ◌&&◌, ◌||◌, Option, none, some, List, [], ◌∷◌, ◌++◌, if◌then◌else◌,
  str_eq, leb, ltb, any, filter, length, map, ok, err, ◌>>=◌, ◌>>◌, ensure,
}
use hey_proxy.Base.Text.{join}
use hey_proxy.Json.{Value, string, object, Fields, end, field}
use hey_proxy.Json.Update.{put_field}
use hey_proxy.Json.Access.{get, index, pointer, as_str, as_u64, is_true, is_text, one_of}
use hey_proxy.Json.Build.{obj, list, is_some, filled, joined, filter_map, set_field}
use hey_proxy.Messages.Events.{block_delta, block_stops, closing}
use hey_proxy.Messages.Steps.{and_then}
use hey_proxy.Messages.Relay.{Read, relay}
use hey_proxy.Messages.Response.{Fallible, or_err, error_value}
use hey_proxy.Partial
use hey_proxy.Partial.{PartialCalls, PartialError, pending}
use hey_proxy.Sse
use hey_proxy.Sse.{SseDecoder}
use hey_proxy.Messages.Native.{
  Backend, NativeRequest, NativeStream, Step, block, with_content, with_usage, usage,
}
use hey_proxy.Messages.Native.Feed.{feed}

-- `visible` of gemini_request.rs
abbrev pub without : String → Fields → Fields
without key end = end
without key (field k v fs) =
    let rest = without key fs in if str_eq k key then rest else field k v rest

abbrev pub shown : Value → Value
shown (object fs) =
    let b = object (without "cache_control" fs) in
    if is_text "thinking" (index b "type") then set_field "signature" (string "") b else b
shown b = b

unfoldable pub visible : List Value → List Value
visible content =
    map shown (filter (λ b. not (is_text "redacted_thinking" (index b "type"))) content)

-- The end of the stream: the checks, in order.
abbrev pub has_output : Value → Bool
has_output part =
    is_some (get part "functionCall")
    || (not (is_true (index part "thought")) && is_some (filled (as_str (index part "text"))))

abbrev pub is_use : Value → Bool
is_use b = is_text "tool_use" (index b "type")

abbrev pub calls : NativeStream → ℕ
calls s = length (filter is_use s.message.content)

unfoldable pub stop_reason : Option String → ℕ → Fallible String
stop_reason none n = err "Gemini response ended without finishReason"
stop_reason (some reason) n =
    if str_eq reason "STOP"
    then ok (if ltb 0 n then "tool_use" else "end_turn")
    else if str_eq reason "MAX_TOKENS"
    then ok "max_tokens"
    else if one_of
        ("SAFETY" ∷ "RECITATION" ∷ "BLOCKLIST" ∷ "PROHIBITED_CONTENT" ∷ "SPII" ∷ "IMAGE_SAFETY"
          ∷ [])
        reason
    then ok "refusal"
    else err (join "Unsupported Gemini finish reason " reason)

abbrev pub is_thinking : Value → Bool
is_thinking b = is_text "thinking" (index b "type")

-- Each block of thinking gets the replay data as its signature.
abbrev pub signed : String → List Value → List Value
signed carrier [] = []
signed carrier (b ∷ bs) =
    let rest = signed carrier bs in
    if is_thinking b then set_field "signature" (string carrier) b ∷ rest else b ∷ rest

abbrev pub signature_delta : String → Value
signature_delta carrier =
    obj (("type", string "signature_delta") ∷ ("signature", string carrier) ∷ [])

abbrev pub signatures : ℕ → String → List Value → List Value
signatures i carrier [] = []
signatures i carrier (b ∷ bs) =
    let rest = signatures (suc i) carrier bs in
    if is_thinking b then block_delta i (signature_delta carrier) ∷ rest else rest

abbrev pub redacted : String → Value
redacted carrier = obj (("type", string "redacted_thinking") ∷ ("data", string carrier) ∷ [])

unfoldable pub sign : String → NativeStream → Step
unfolding block
sign carrier s =
    if any is_thinking s.message.content
    then ok
        (with_content (signed carrier s.message.content) s, signatures 0 carrier s.message.content)
    else ok (block (redacted carrier) s)

abbrev pub close_all : String → NativeStream → Step
close_all reason s = ok (
  record s { message = record s.message { stop_reason = string reason } },
  block_stops 0 (length s.message.content) ++ closing reason s.message.usage,
)

abbrev pub used_fields : Option Fields → Fallible Fields
used_fields acc = or_err acc "Gemini response lacks token usage; cannot track compaction safely"

abbrev pub generated : NativeStream → Fields → Bool
generated s acc =
    not (any has_output s.native) || is_some (as_u64 (index (object acc) "candidatesTokenCount"))

module _ (backend : Backend) (request : NativeRequest) where
  unfoldable pub check_schema : Option Value → NativeStream → Fallible (Unit {0})
  check_schema none s = ok tt
  check_schema (some schema) s = do
    value ←
        or_err
          (backend.from_str (joined (filter_map (λ b. as_str (index b "text")) s.message.content)))
          "Gemini structured output is not JSON"
    valid ← backend.accepts schema value
    ensure valid "Gemini structured output violates the requested schema"

  unfoldable pub end_with : NativeStream → String → Step
  unfolding check_schema visible sign
  end_with s reason = do
    check_schema (pointer request.body ("generationConfig" ∷ "responseJsonSchema" ∷ [])) s
    carrier ← backend.seal request.model (list s.native) (list (visible s.message.content))
    and_then (sign carrier s) (close_all reason)

  unfoldable pub end_used : Fields → NativeStream → Step
  unfolding stop_reason end_with
  end_used acc s = do
    ensure (generated s acc) "Gemini response lacks generated token usage"
    ensure (request.parallel || leb (calls s) 1) "Gemini violated disable_parallel_tool_use"
    stop_reason s.reason (calls s) >>= end_with s

  unfoldable pub end_stream : NativeStream → Step
  unfolding usage end_used
  end_stream s = do
    ensure (not (pending s.partial)) "Gemini stream ended with incomplete function arguments"
    acc ← used_fields s.usage
    used ← usage (object acc)
    end_used acc (with_usage used s)

  -- The loop of gemini.rs, from the state of a new stream.
  unfoldable pub forward_stream :
      (List ℕ → Option Value) → List Read → SseDecoder → NativeStream → List Value
  unfolding relay feed end_stream
  forward_stream from_slice reads d s =
      relay (feed backend request) end_stream "Native Gemini stream disconnected"
        "Invalid or oversized native Gemini SSE" from_slice reads d s

-- Opens the converter, for the runs at concrete streams.
unfoldable pub native_opened : Unit {0}
unfolding forward_stream Sse.sse_opened Partial.partial_opened error_value put_field
native_opened = tt
