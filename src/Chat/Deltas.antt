-- ===== src/Chat/Deltas.antt =====
-- src/proxy/chat/stream.rs, the state of a chat stream and what it sends of texts, summaries and
-- arguments.
use hey_proxy.Base.{
  ℕ, ◌+◌, ◌*◌, ◌-◌, ◌^◌, min, String, Bool, true, false, not, ◌&&◌, Option, none, some, List, [],
  ◌∷◌, if◌then◌else◌, str_eq, leb, ltb, ◌==◌, ok, err, ◌>>=◌, ◌>>◌, ensure,
}
use hey_proxy.Base.Text.{join, strip_prefix, codes}
use hey_proxy.Base.Maps.{find_key, put_key}
use hey_proxy.Json.{Value, null, string}
use hey_proxy.Json.Update.{put_field}
use hey_proxy.Json.Access.{index}
use hey_proxy.Json.Build.{obj, nat, list, unwrap_or, is_blank_text, set_field}
use hey_proxy.Messages.Response.{Fallible, or_err}
use hey_proxy.Messages.Steps.{StepOf}

abbrev pub limit : ℕ
limit = 64 * 1024 * 1024

-- The bytes of a text in UTF-8, `text.len()`
abbrev pub utf8_width : ℕ → ℕ
utf8_width c = if ltb c 0x80 then 1 else if ltb c 0x800 then 2 else if ltb c 0x10000 then 3 else 4

abbrev pub widths : List ℕ → ℕ
widths [] = 0
widths (c ∷ cs) = utf8_width c + widths cs

abbrev pub byte_len : String → ℕ
byte_len text = widths (codes text)

abbrev pub TextKey : Type 0
TextKey = ℕ × ℕ × String

abbrev pub same_text_key : TextKey → TextKey → Bool
same_text_key (o, c, f) (p, d, g) = o == p && c == d && str_eq f g

abbrev pub SummaryKey : Type 0
SummaryKey = ℕ × Bool

abbrev pub same_flag : Bool → Bool → Bool
same_flag true b = b
same_flag false b = not b

abbrev pub same_summary_key : SummaryKey → SummaryKey → Bool
same_summary_key (i, r) (j, q) = i == j && same_flag r q

-- A call: its number, the item that opened it, and the arguments so far.
abbrev pub Tool : Type 0
Tool = ℕ × Value × String

pub record State : Type 0 where
  pub id : String
  pub created : ℕ
  pub model : String
  pub started : Bool
  pub over : Bool  -- `ended` in the source
  pub include_usage : Bool
  pub exclude_reasoning : Bool
  pub gemini : Bool
  pub texts : List (TextKey × String)
  pub summaries : List (SummaryKey × String)
  pub tools : List (ℕ × Tool)
  pub encrypted : List ℕ
  pub retained : ℕ

-- `State::new`, for a drawn id and the time
abbrev pub new : String → ℕ → String → Bool → Bool → State
new id created model include_usage exclude_reasoning = record {
  id = id;
  created = created;
  model = model;
  started = false;
  over = false;
  include_usage = include_usage;
  exclude_reasoning = exclude_reasoning;
  gemini = false;
  texts = [];
  summaries = [];
  tools = [];
  encrypted = [];
  retained = 0;
}

abbrev pub Step : Type 0
Step = StepOf State

abbrev pub optional_text : Option String → Value
optional_text (some text) = string text
optional_text none = null

abbrev pub bare_chunk : State → Value → Option String → Value
bare_chunk s delta finish = obj (
    ("id", string s.id)
    ∷ ("object", string "chat.completion.chunk")
    ∷ ("created", nat s.created)
    ∷ ("model", string s.model)
    ∷ (
      "choices",
      list (
          obj (
            ("index", nat 0)
            ∷ ("delta", delta)
            ∷ ("finish_reason", optional_text finish)
            ∷ ("logprobs", null)
            ∷ [])
          ∷ []),
    )
    ∷ [])

unfoldable pub chunk : State → Value → Option String → Value
unfolding put_field
chunk s delta finish =
    if s.include_usage
    then set_field "usage" null (bare_chunk s delta finish)
    else bare_chunk s delta finish

unfoldable pub retain : ℕ → State → Fallible State
retain bytes s =
    let total = min (s.retained + bytes) (2 ^ 64 - 1) in
    do
      ensure (leb total limit) "Chat stream exceeds 64 MiB of translated output"
      ok (record s { retained = total })

-- Counts the bytes of a delta and sends it.
unfoldable pub send : ℕ → Value → State → Step
unfolding retain chunk
send bytes delta s = retain bytes s >>= λ t. ok (t, chunk t delta none ∷ [])

-- The part of a text that was not sent: of a full text what stands behind the prior one.
abbrev pub unsent : Bool → String → String → String → Fallible String
unsent full prior text changed = if full then or_err (strip_prefix prior text) changed else ok text

abbrev pub send_text : TextKey → String → String → State → Step
send_text (output, content, key) prior delta s =
    if is_blank_text delta
    then ok (s, [])
    else send (byte_len delta) (obj ((key, string delta) ∷ [])) (record s {
      texts = put_key same_text_key (output, content, key) (join prior delta) s.texts;
    })

unfoldable pub text : TextKey → String → Bool → State → Step
unfolding send strip_prefix
text key full_text full s =
    let prior = unwrap_or (find_key same_text_key key s.texts) "" in
    unsent full prior full_text "Response text changed after being streamed" >>= λ delta.
    send_text key prior delta s

abbrev pub reasoning_delta : ℕ → Value → String → Bool → Bool → Value
reasoning_delta i id delta raw gemini = obj (
    ("reasoning", string delta)
    ∷ (
      "reasoning_details",
      list (
          obj (
            ("type", string (if raw then "reasoning.text" else "reasoning.summary"))
            ∷ (if raw then "text" else "summary", string delta)
            ∷ ("id", id)
            ∷ ("format", string (if gemini then "google-gemini-v1" else "openai-responses-v1"))
            ∷ ("index", nat (i * 3 + (if raw then 1 else 0)))
            ∷ [])
          ∷ []),
    )
    ∷ [])

abbrev pub send_summary : SummaryKey → Value → String → String → State → Step
send_summary (i, raw) id prior delta s =
    if is_blank_text delta
    then ok (s, [])
    else send (byte_len delta) (reasoning_delta i id delta raw s.gemini)
        (record s { summaries = put_key same_summary_key (i, raw) (join prior delta) s.summaries })

unfoldable pub summary : SummaryKey → Value → String → Bool → State → Step
unfolding send strip_prefix
summary key id full_text full s =
    let prior = unwrap_or (find_key same_summary_key key s.summaries) "" in
    let step =
      unsent full prior full_text "Reasoning summary changed after being streamed" >>= λ delta.
      send_summary key id prior delta s in
    if s.exclude_reasoning then ok (s, []) else step

abbrev pub tool_delta : ℕ → Value → Value
tool_delta number item = obj (
    (
      "tool_calls",
      list (
          obj (
            ("index", nat number)
            ∷ ("id", index item "call_id")
            ∷ ("type", string "function")
            ∷ ("function", obj (("name", index item "name") ∷ ("arguments", string "") ∷ []))
            ∷ [])
          ∷ []),
    )
    ∷ [])

abbrev pub arguments_delta : ℕ → String → Value
arguments_delta number delta = obj (
    (
      "tool_calls",
      list (
          obj (("index", nat number) ∷ ("function", obj (("arguments", string delta) ∷ [])) ∷ [])
          ∷ []),
    )
    ∷ [])

abbrev pub send_arguments : ℕ → Tool → String → State → Step
send_arguments key (number, item, previous) delta s =
    if is_blank_text delta
    then ok (s, [])
    else send (byte_len delta) (arguments_delta number delta)
        (record s { tools = put_key ◌==◌ key (number, item, join previous delta) s.tools })

unfoldable pub arguments_of : Option Tool → ℕ → String → Bool → State → Step
unfolding send strip_prefix
arguments_of none key args full s = err "Function arguments arrived before the function identity"
arguments_of (some (number, item, previous)) key args full s =
    unsent full previous args "Function arguments changed after being streamed" >>= λ delta.
    send_arguments key (number, item, previous) delta s

unfoldable pub arguments : ℕ → String → Bool → State → Step
unfolding arguments_of
arguments key args full s = arguments_of (find_key ◌==◌ key s.tools) key args full s
