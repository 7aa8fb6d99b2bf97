-- ===== src/Messages/Native/Examples.antt =====
-- Runs of src/proxy/messages/gemini_stream.rs at concrete streams.
use hey_proxy.Base.{
  ℕ, true, false, Option, none, some, List, [], ◌∷◌, ◌≡◌, refl, map, ok, if◌then◌else◌,
}
use hey_proxy.Base.Text.{codes, equal_bytes}
use hey_proxy.Json.{Value, string, bool}
use hey_proxy.Json.Access.{index}
use hey_proxy.Json.Build.{obj, nat, list}
use hey_proxy.Messages.Protocol.{new_client, IsComplete}
use hey_proxy.Messages.Events.{block_stops}
use hey_proxy.Messages.Relay.{Read, bytes, heartbeat}
use hey_proxy.Messages.Native.{Backend, NativeRequest, new}
use hey_proxy.Messages.Native.End.{forward_stream, native_opened}
use hey_proxy.Messages.Native.Complete.{forward_stream-IsComplete}
use hey_proxy.Sse

abbrev toy : Backend
toy = record {
  printed_len = λ _. 80;
  printed = λ _. "{}";
  same = λ _ _. true;
  refusal_text = λ _. "Invalid function call";
  from_str = λ _. none;
  seal = λ _ _ _. ok "sealed";
  accepts = λ _ _. ok true;
}

abbrev request : NativeRequest
request = record {
  model = "gemini-pro";
  body = obj [];
  tools = ("hey_read_1", "read") ∷ [];
  parallel = false;
  display_thinking = true;
}

abbrev chunk : List Value → Value → Value
chunk parts more = obj (
    (
      "candidates",
      list (obj (("content", obj (("parts", list parts) ∷ [])) ∷ ("finishReason", more) ∷ []) ∷ []),
    )
    ∷ ("usageMetadata", obj (("promptTokenCount", nat 9) ∷ ("candidatesTokenCount", nat 4) ∷ []))
    ∷ [])

-- Thinking, text and a call in one chunk, which ends the stream.
abbrev answer : Value
answer =
    chunk
      (obj (("text", string "Hm") ∷ ("thought", bool true) ∷ [])
        ∷ obj (("text", string "Yes") ∷ [])
        ∷ obj (("functionCall", obj (("name", string "hey_read_1") ∷ ("args", obj []) ∷ [])) ∷ [])
        ∷ [])
      (string "STOP")

abbrev parse : List ℕ → Option Value
parse text = if equal_bytes text (codes "1") then some answer else none

abbrev reads : List Read
reads = heartbeat ∷ bytes (codes "data: 1\r\n\r") ∷ bytes (codes "\n") ∷ []

told_types :
    map
      (λ e. index e "type")
      (forward_stream toy request parse reads Sse.fresh (new "msg_1" "gemini-pro"))
    ≡ map string (
        "ping" ∷ "message_start" ∷ "content_block_start" ∷ "content_block_delta"
        ∷ "content_block_start" ∷ "content_block_delta" ∷ "content_block_start"
        ∷ "content_block_delta" ∷ "content_block_delta" ∷ "content_block_stop"
        ∷ "content_block_stop" ∷ "content_block_stop" ∷ "message_delta" ∷ "message_stop" ∷ [])
unfolding native_opened block_stops
told_types = refl

forward_stream-IsComplete_example :
    IsComplete new_client
      (forward_stream toy request parse reads Sse.fresh (new "msg_1" "gemini-pro"))
forward_stream-IsComplete_example =
    forward_stream-IsComplete toy request parse "msg_1" "gemini-pro" reads
