-- ===== src/Messages/Examples.antt =====
-- Runs of src/proxy/messages at concrete streams.
use hey_proxy.Base.{
  ℕ, true, Option, none, some, List, [], ◌∷◌, ◌≡◌, refl, map, ok, err, if◌then◌else◌,
}
use hey_proxy.Base.Text.{codes, equal_bytes}
use hey_proxy.Json.{Value, string, object, end}
use hey_proxy.Json.Access.{index}
use hey_proxy.Json.Build.{obj, nat, list}
use hey_proxy.Messages.Codec.{Codec}
use hey_proxy.Messages.Protocol.{Kind, new_client, IsComplete}
use hey_proxy.Messages.Response.{encode_details, decode_details}
use hey_proxy.Messages.Relay.{Read, bytes, broken, heartbeat}
use hey_proxy.Messages.Events.{block_start, block_delta, text_start, text_delta}
use hey_proxy.Messages.Stream.{State, fresh, event, adapt, message_start, messages_opened}
use hey_proxy.Messages.Stream.Complete.{adapt-IsComplete}
use hey_proxy.Messages.Stream.Fidelity.{pieces, event-pieces}
use hey_proxy.Sse

abbrev details : List Value
details = obj (("index", nat 0) ∷ ("text", string "so") ∷ []) ∷ []

-- A codec that knows one list of details, and one object.
abbrev toy : Codec
toy = record {
  to_vec = λ _. 7 ∷ [];
  from_slice = λ _. some details;
  encode = λ _. "Bw==";
  decode = λ _. some (7 ∷ []);
  from_str = λ _. some (object end);
  printed_len = λ _. 40;
}

replayed : decode_details toy (encode_details toy details) ≡ ok details
unfolding encode_details decode_details
replayed = refl

foreign_signature :
    decode_details toy "Bw=="
    ≡ err "Thinking replay requires the original signature/data from this Messages shim"
unfolding decode_details
foreign_signature = refl

abbrev chunk : Value → Value → Value
chunk delta finish = obj (
    ("id", string "7")
    ∷ ("usage", obj (("prompt_tokens", nat 5) ∷ []))
    ∷ ("choices", list (obj (("finish_reason", finish) ∷ ("delta", delta) ∷ []) ∷ []))
    ∷ [])

abbrev hello : Value
hello = chunk (obj (("content", string "Hello") ∷ [])) Value.null

abbrev call : Value
call =
    chunk
      (obj (
        (
          "tool_calls",
          list (
              obj (
                ("index", nat 0)
                ∷ ("id", string "call_1")
                ∷ ("function", obj (("name", string "read") ∷ ("arguments", string "{}") ∷ []))
                ∷ [])
              ∷ []),
        )
        ∷ []))
      (string "tool_calls")

abbrev parse : List ℕ → Option Value
parse text =
    if equal_bytes text (codes "1")
    then some hello
    else if equal_bytes text (codes "2")
    then some call
    else none

abbrev reads : List Read
reads =
    bytes (codes "data: 1\n")
    ∷ heartbeat
    ∷ bytes (codes "\ndata: 2\n\n")
    ∷ bytes (codes "data: [DONE]\n\n")
    ∷ []

told_types :
    map (λ e. index e "type") (adapt toy parse "claude" reads Sse.fresh fresh)
    ≡ map string (
        "ping" ∷ "message_start" ∷ "content_block_start" ∷ "content_block_delta"
        ∷ "content_block_start" ∷ "content_block_delta" ∷ "content_block_stop"
        ∷ "content_block_stop" ∷ "message_delta" ∷ "message_stop" ∷ [])
unfolding messages_opened
told_types = refl

broken_types :
    map
      (λ e. index e "type")
      (adapt toy parse "claude" (bytes (codes "data: 1\n\n") ∷ broken ∷ []) Sse.fresh fresh)
    ≡ map string ("message_start" ∷ "content_block_start" ∷ "content_block_delta" ∷ "error" ∷ [])
unfolding messages_opened
broken_types = refl

adapt-IsComplete_example : IsComplete new_client (adapt toy parse "claude" reads Sse.fresh fresh)
adapt-IsComplete_example = adapt-IsComplete toy parse "claude" reads

abbrev hello_started : State
hello_started = record {
  started = true;
  blocks = 1;
  text = some 0;
  thinking = none;
  thinking_text = "";
  tools = [];
  details = [];
  finish = none;
  usage = obj (("prompt_tokens", nat 5) ∷ []);
  retained = 40;
}

abbrev hello_events : List Value
hello_events =
    message_start "7" "claude" ∷ block_start 0 text_start ∷ block_delta 0 (text_delta "Hello") ∷ []

hello_taken : event toy hello "claude" fresh ≡ ok (hello_started, hello_events)
unfolding messages_opened
hello_taken = refl

event-pieces_example : pieces Kind.text hello_events ≡ "Hello" ∷ []
event-pieces_example =
    event-pieces toy Kind.text hello "claude" fresh hello_started hello_events hello_taken
