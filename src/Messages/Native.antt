-- ===== src/Messages/Native.antt =====
-- src/proxy/messages/gemini_stream.rs: a stream of native Gemini chunks as a stream of Messages events,
-- up to its end. The seal of the replay data, the
-- validation by a JSON schema and the equality of JSON values are parameters, as are serde_json's
-- parser and printer. Of the message only the fields that change are kept. The log is not modelled.
pub mod Feed
pub mod End
pub mod Tracks
pub mod Steps
pub mod Ready
pub mod Complete
mod Examples
use hey_proxy.Base.{
  ℕ, zero, suc, ◌+◌, ◌-◌, String, Bool, true, false, not, ◌&&◌, ◌||◌, Option, none, some, List, [],
  ◌∷◌, ◌++◌, if◌then◌else◌, str_eq, leb, ltb, ◌==◌, is_empty, any, all, filter, length, last,
  but_last, get_elem?, map, ok, err, ◌>>=◌, ◌>>◌, ensure,
}
use hey_proxy.Base.Text.{join}
use hey_proxy.Json.{
  Value, null, bool, number, unsigned, string, array, object, Fields, end, field, elements,
}
use hey_proxy.Json.Update.{put_field}
use hey_proxy.Json.Access.{
  get, find_field, index, pointer, as_str, as_u64, as_array, is_true, is_text, is_some_and, one_of,
  or_else,
}
use hey_proxy.Json.Build.{
  obj, nat, list, unwrap_or, is_object, is_some, is_blank_text, filled, joined, filter_map,
  set_field,
}
use hey_proxy.Messages.Events.{
  block_start, block_delta, no_usage, thinking_start, thinking_delta, text_start, text_delta,
  input_delta, block_stops, closing,
}
use hey_proxy.Messages.Steps.{StepOf, and_then}
use hey_proxy.Messages.Relay.{Read, relay}
use hey_proxy.Messages.Response.{Fallible, or_err, error_value}
use hey_proxy.Messages.Stream.{limit, saturating_add}
use hey_proxy.Partial
use hey_proxy.Partial.{PartialCalls, PartialError, pending}
use hey_proxy.Sse
use hey_proxy.Sse.{SseDecoder}

-- What the converter calls and does not implement.
pub record Backend : Type 0 where
  pub printed_len : Value → ℕ
  pub printed : Value → String
  pub same : Value → Value → Bool
  pub refusal_text : PartialError → String
  pub from_str : String → Option Value
  -- `codec.seal_messages`
  pub seal : String → Value → Value → Fallible String
  -- `jsonschema::validator_for(schema)?.is_valid(value)`
  pub accepts : Value → Value → Fallible Bool

-- The fields of `NativeRequest` that the stream reads.
pub record NativeRequest : Type 0 where
  pub model : String
  pub body : Value
  pub tools : List (String × String)
  pub parallel : Bool
  pub display_thinking : Bool

-- `message`: the fields that change, and its model
pub record Message : Type 0 where
  pub model : String
  pub content : List Value
  pub stop_reason : Value
  pub usage : Value

pub record NativeStream : Type 0 where
  pub id : String
  pub message : Message
  pub native : List Value
  pub active : Option (ℕ × Bool)
  pub partial : PartialCalls
  pub started : Bool
  pub reason : Option String
  pub usage : Option Fields
  pub bytes : ℕ

abbrev pub message_value : String → Message → Value
message_value id m = obj (
    ("id", string id)
    ∷ ("type", string "message")
    ∷ ("role", string "assistant")
    ∷ ("model", string m.model)
    ∷ ("content", list m.content)
    ∷ ("stop_reason", m.stop_reason)
    ∷ ("stop_sequence", null)
    ∷ ("usage", m.usage)
    ∷ [])

-- `NativeStream::new`, for a drawn id
abbrev pub new : String → String → NativeStream
new id model = record {
  id = id;
  message = record { model = model; content = []; stop_reason = null; usage = no_usage };
  native = [];
  active = none;
  partial = Partial.default;
  started = false;
  reason = none;
  usage = none;
  bytes = 0;
}

abbrev pub Step : Type 0
Step = StepOf NativeStream

abbrev pub counted : Value → String → ℕ
counted v key = unwrap_or (as_u64 (index v key)) 0

unfoldable pub usage : Value → Fallible Value
usage v = do
  input ← or_err (as_u64 (index v "promptTokenCount")) "Gemini response lacks prompt token usage"
  let cache = counted v "cachedContentTokenCount"
  ok (
      obj (
        ("input_tokens", nat (input - cache))
        ∷ (
          "output_tokens",
          nat (saturating_add (counted v "candidatesTokenCount") (counted v "thoughtsTokenCount")),
        )
        ∷ ("cache_read_input_tokens", nat cache)
        ∷ ("cache_creation_input_tokens", nat 0)
        ∷ []))

abbrev pub with_content : List Value → NativeStream → NativeStream
with_content content s = record s { message = record s.message { content = content } }

abbrev pub with_usage : Value → NativeStream → NativeStream
with_usage used s = record s { message = record s.message { usage = used } }

-- `block`, whose result is the number of blocks before
unfoldable pub block : Value → NativeStream → NativeStream × List Value
block b s =
    (with_content (s.message.content ++ b ∷ []) s, block_start (length s.message.content) b ∷ [])

-- `accumulated.extend(fields)`
abbrev pub extend : Fields → Fields → Fields
extend acc end = acc
extend acc (field key v fs) = extend (put_field key v acc) fs

unfoldable pub accumulate : Fields → NativeStream → Fallible NativeStream
unfolding usage
accumulate acc s =
    if is_some (as_u64 (index (object acc) "promptTokenCount"))
    then (usage (object acc) >>= λ used. ok (with_usage used (record s { usage = some acc })))
    else ok (record s { usage = some acc })

unfoldable pub take_usage : Option Value → NativeStream → Fallible NativeStream
unfolding accumulate
take_usage none s = ok s
take_usage (some (object fs)) s = accumulate (extend (unwrap_or s.usage end) fs) s
take_usage (some _) s = err "Invalid Gemini usage metadata"

abbrev pub message_start : NativeStream → Value
message_start s =
    obj (("type", string "message_start") ∷ ("message", message_value s.id s.message) ∷ [])

unfoldable pub begin : NativeStream → Step
begin s = if s.started then ok (s, []) else ok (record s { started = true }, message_start s ∷ [])

abbrev pub text_of : Option Value → Option String
text_of (some v) = as_str v
text_of none = none

unfoldable pub take_block_reason : Option String → NativeStream → Fallible NativeStream
take_block_reason none s = ok s
take_block_reason (some blocked) s =
    if is_blank_text blocked
    then err "Invalid block reason"
    else ok (record s { reason = some "SAFETY" })
