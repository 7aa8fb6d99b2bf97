-- ===== src/Messages/Stream.antt =====
-- src/proxy/messages/stream.rs: a stream of chat completion chunks as a stream of Messages events.
-- An event stands for its JSON value, an error for its message. The log of a failure is not modelled.
pub mod Tracks
pub mod Steps
pub mod Quiet
pub mod Ends
pub mod Complete
pub mod Fidelity
use hey_proxy.Base.{
  ℕ, zero, suc, ◌+◌, ◌*◌, ◌-◌, ◌^◌, min, String, Bool, true, false, ◌&&◌, Option, none, some, List,
  [], ◌∷◌, ◌++◌, if◌then◌else◌, str_eq, leb, all, ok, err, ◌>>=◌, ◌>>◌, ensure,
}
use hey_proxy.Base.Text.{join}
use hey_proxy.Base.Maps.{Entry, lookup, insert, values}
use hey_proxy.Json.{Value, null, string}
use hey_proxy.Json.Update.{put_field}
use hey_proxy.Json.Access.{get, index, as_str, as_u64}
use hey_proxy.Json.Build.{
  obj, nat, list, at, each, unwrap_or, is_object, is_string, is_some, filled, set_field,
}
use hey_proxy.Messages.Codec.{Codec}
use hey_proxy.Messages.Events.{
  block_start, block_delta, block_stop, no_usage, thinking_start, thinking_delta, text_start,
  text_delta, input_delta, block_stops, closing,
}
use hey_proxy.Messages.Relay.{Read, relay}
use hey_proxy.Messages.Steps.{StepOf, and_then}
use hey_proxy.Messages.Response
use hey_proxy.Messages.Response.{
  Fallible, or_err, error_value, encode_details, reasoning_text, thinking, stop,
}
use hey_proxy.Sse
use hey_proxy.Sse.{SseDecoder}

abbrev pub limit : ℕ
limit = 64 * 1024 * 1024

pub record State : Type 0 where
  pub started : Bool
  pub blocks : ℕ
  pub text : Option ℕ
  pub thinking : Option ℕ
  pub thinking_text : String
  pub tools : List (Entry (ℕ × String))
  pub details : List (Entry Value)
  pub finish : Option String
  pub usage : Value
  pub retained : ℕ

-- `State::default()`
abbrev pub fresh : State
fresh = record {
  started = false;
  blocks = 0;
  text = none;
  thinking = none;
  thinking_text = "";
  tools = [];
  details = [];
  finish = none;
  usage = null;
  retained = 0;
}

abbrev pub Step : Type 0
Step = StepOf State

-- `State::block`, whose result is the number of blocks before
unfoldable pub block : Value → State → State × List Value
block b s = (record s { blocks = suc s.blocks }, block_start s.blocks b ∷ [])

abbrev pub message_start : String → String → Value
message_start id model = obj (
    ("type", string "message_start")
    ∷ (
      "message",
      obj (
          ("id", string (join "msg_" id))
          ∷ ("type", string "message")
          ∷ ("role", string "assistant")
          ∷ ("model", string model)
          ∷ ("content", list [])
          ∷ ("stop_reason", null)
          ∷ ("stop_sequence", null)
          ∷ ("usage", no_usage)
          ∷ []),
    )
    ∷ [])

-- The parts of `event`, in order.
unfoldable pub no_error : Value → Fallible (Unit {0})
no_error chunk = elim (get chunk "error") [
  | none ↦ ok tt
  | some e ↦ err (
      unwrap_or (elim (get e "message") [ some m ↦ as_str m | none ↦ none ])
        "Upstream stream failed")
]

unfoldable pub begin_as : Option String → String → State → Step
begin_as (some id) model s = ok (record s { started = true }, message_start id model ∷ [])
begin_as none model s = err "Upstream stream lacks id"

unfoldable pub begin : Value → String → State → Step
unfolding begin_as
begin chunk model s = if s.started then ok (s, []) else begin_as (as_str (index chunk "id")) model s

unfoldable pub keep_usage : Value → State → State
keep_usage chunk s =
    if is_object (index chunk "usage") then record s { usage = index chunk "usage" } else s

unfoldable pub keep_finish : Option String → State → Fallible State
unfolding stop
keep_finish (some reason) s = do told ← stop reason; ok (record s { finish = some told })
keep_finish none s = ok s

abbrev pub saturating_add : ℕ → ℕ → ℕ
saturating_add a b = min (a + b) (2 ^ 64 - 1)

-- Counts the printed length of a delta.
unfoldable pub retain : ℕ → State → Fallible State
retain len s =
    let total = saturating_add s.retained len in
    do ensure (leb total limit) "Messages stream exceeds 64 MiB"; ok (record s { retained = total })

-- The keys of a detail of a reasoning whose text arrives in pieces.
abbrev pub text_keys : List String
text_keys = "summary" ∷ "text" ∷ "data" ∷ []

abbrev pub blanked : List String → Value → Value
blanked [] v = v
blanked (key ∷ keys) v =
    blanked keys (if is_some (get v key) then set_field key (string "") v else v)

abbrev pub extended : List String → Value → Value → Value
extended [] detail current = current
extended (key ∷ keys) detail current = extended keys detail elim (as_str (index detail key)) [
  | some text ↦
      set_field key (string (join (unwrap_or (as_str (index current key)) "") text)) current
  | none ↦ current
]

unfoldable pub add_detail : Option ℕ → Value → State → Fallible State
add_detail none detail s = err "Reasoning delta lacks index"
add_detail (some key) detail s =
    let current = unwrap_or (lookup key s.details) (blanked text_keys detail) in
    ok (record s { details = insert key (extended text_keys detail current) s.details })

unfoldable pub add_details : List Value → State → Fallible State
unfolding add_detail
add_details [] s = ok s
add_details (d ∷ ds) s = add_detail (as_u64 (index d "index")) d s >>= add_details ds

-- The block of thinking, which is started if there is none.
unfoldable pub thinking_index : State → (ℕ × (State × List Value))
unfolding block
thinking_index s = elim s.thinking [
  | some i ↦ (i, (s, []))
  | none ↦
      let (t, es) = block thinking_start s in
      (s.blocks, (record t { thinking = some s.blocks }, es))
]

unfoldable pub think : Option String → State → Step
unfolding thinking_index
think none s = ok (s, [])
think (some text) s =
    let (i, (t, es)) = thinking_index s in
    ok (
      record t { thinking_text = join t.thinking_text text },
      es ++ block_delta i (thinking_delta text) ∷ [],
    )

unfoldable pub text_index : State → (ℕ × (State × List Value))
unfolding block
text_index s = elim s.text [
  | some i ↦ (i, (s, []))
  | none ↦ let (t, es) = block text_start s in (s.blocks, (record t { text = some s.blocks }, es))
]

unfoldable pub say : Option String → State → Step
unfolding text_index
say none s = ok (s, [])
say (some text) s =
    let (i, (t, es)) = text_index s in ok (t, es ++ block_delta i (text_delta text) ∷ [])

abbrev pub tool_start : Value → Value
tool_start call = obj (
    ("type", string "tool_use")
    ∷ ("id", index call "id")
    ∷ ("name", index (index call "function") "name")
    ∷ ("input", obj [])
    ∷ [])

abbrev pub is_identified : Value → Bool
is_identified call = is_string (index call "id") && is_string (index (index call "function") "name")

-- The block of a call, which is started by the first piece with its identity.
unfoldable pub open_unless : Option (ℕ × String) → ℕ → Value → State → Step
unfolding block
open_unless (some _) key call s = ok (s, [])
open_unless none key call s =
    let (t, es) = block (tool_start call) s in
    if is_identified call
    then ok (record t { tools = insert key (s.blocks, "") s.tools }, es)
    else err "Tool arguments arrived without identity"

-- `get_mut(&key).unwrap()`: the block was opened before.
unfoldable pub push_arguments : Option (ℕ × String) → ℕ → String → State → Step
push_arguments (some (i, args)) key text s = ok (
  record s { tools = insert key (i, join args text) s.tools },
  block_delta i (input_delta text) ∷ [],
)
push_arguments none key text s = ok (s, [])

unfoldable pub add_arguments : ℕ → Option String → State → Step
unfolding push_arguments
add_arguments key none s = ok (s, [])
add_arguments key (some text) s = push_arguments (lookup key s.tools) key text s

unfoldable pub call_at : Option ℕ → Value → State → Step
unfolding open_unless add_arguments
call_at none call s = err "Tool delta lacks index"
call_at (some key) call s =
    and_then (open_unless (lookup key s.tools) key call s)
      (add_arguments key (filled (as_str (index (index call "function") "arguments"))))

unfoldable pub call_tool : Value → State → Step
unfolding call_at
call_tool call s = call_at (as_u64 (index call "index")) call s

unfoldable pub call_tools : List Value → State → Step
unfolding call_tool
call_tools [] s = ok (s, [])
call_tools (call ∷ calls) s = and_then (call_tool call s) (call_tools calls)

abbrev pub close_all : String → State → Step
close_all reason s = ok (s, block_stops 0 s.blocks ++ closing reason (Response.usage s.usage))

module _ (codec : Codec) where
  -- What a chunk changes besides the blocks.
  unfoldable pub note : Value → State → Fallible State
  unfolding keep_usage keep_finish retain add_details
  note chunk s =
      let choice = at (index chunk "choices") 0 in
      let delta = index choice "delta" in
      do
        finished ← keep_finish (as_str (index choice "finish_reason")) (keep_usage chunk s)
        counted ← retain (codec.printed_len delta) finished
        add_details (each (index delta "reasoning_details")) counted

  abbrev pub noted : Value → State → Step
  noted chunk s = note chunk s >>= λ t. ok (t, [])

  unfoldable pub event : Value → String → State → Step
  unfolding no_error begin note think say call_tools
  event chunk model s =
      let delta = index (at (index chunk "choices") 0) "delta" in
      no_error chunk
      >> and_then (begin chunk model s) λ s1. and_then (noted chunk s1) λ s2.
        and_then (think (filled (as_str (index delta "reasoning"))) s2) λ s3.
          and_then (say (filled (as_str (index delta "content"))) s3) λ s4.
            and_then (say (filled (as_str (index delta "refusal"))) s4)
              λ s5. call_tools (each (index delta "tool_calls")) s5

  abbrev pub is_complete : Entry (ℕ × String) → Bool
  is_complete (key, (i, args)) = elim (codec.from_str args) [ some v ↦ is_object v | none ↦ false ]

  abbrev pub signature_delta : List Value → Value
  signature_delta details = obj (
      ("type", string "signature_delta")
      ∷ ("signature", string (encode_details codec details))
      ∷ [])

  -- The replay data of the reasoning: a signature for the block of thinking, or a block of its own.
  unfoldable pub sign_as : Option ℕ → Option Value → State → Step
  unfolding block
  sign_as (some i) replay s =
      let details = values s.details in
      if str_eq (reasoning_text details) s.thinking_text
      then ok (s, block_delta i (signature_delta details) ∷ [])
      else err "Thinking replay data does not match streamed text"
  sign_as none (some replay) s = ok (block replay s)
  sign_as none none s = ok (s, [])

  unfoldable pub sign : State → Step
  unfolding sign_as
  sign s = sign_as s.thinking (thinking codec (values s.details)) s

  unfoldable pub end : State → Step
  unfolding sign block_stops
  end s = do
    reason ← or_err s.finish "Stream ended without a finish reason"
    ensure (is_object s.usage) "Stream ended without usage"
    ensure (all is_complete s.tools) "Upstream tool arguments are not a complete JSON object"
    and_then (sign s) (close_all reason)

  module _ (from_slice : List ℕ → Option Value) (model : String) where
    -- The loop of `adapt`
    unfoldable pub adapt : List Read → SseDecoder → State → List Value
    unfolding relay event end
    adapt reads d s =
        relay (λ chunk t. event chunk model t) end "Upstream stream disconnected"
          "Invalid or oversized SSE frame" from_slice reads d s

-- Opens the converter, for the runs at concrete streams.
unfoldable pub messages_opened : Unit {0}
unfolding adapt Sse.sse_opened error_value lookup insert put_field thinking
messages_opened = tt
