-- ===== src/Chat/Stream.antt =====
-- src/proxy/chat/stream.rs, `State`: events of a Responses stream as chat completion chunks. The printed
-- length of a value is a parameter; an error ends the stream, so the state after it is not modelled.
pub mod Calls
pub mod Keeps
pub mod Tells
pub mod Events
pub mod Complete
pub mod Hears
pub mod Examples
use Prim.Native.String
use hey_proxy.Base.{
  ℕ, zero, suc, ◌+◌, ◌*◌, ◌-◌, ◌^◌, min, String, Bool, true, false, not, ◌&&◌, Option, none, some,
  List, [], ◌∷◌, ◌++◌, if◌then◌else◌, str_eq, leb, ltb, ◌==◌, is_empty, length, find, any, ok, err,
  ◌>>=◌, ◌>>◌, ensure,
}
use hey_proxy.Base.Text.{has_prefix, join, strip_prefix, codes}
use hey_proxy.Base.Maps.{find_key, put_key}
use hey_proxy.Json.{Value, null, string}
use hey_proxy.Json.Update.{put_field}
use hey_proxy.Json.Access.{
  get, index, pointer, as_str, as_u64, as_array, is_text, one_of, is_some_and, or_else,
}
use hey_proxy.Json.Build.{obj, nat, list, unwrap_or, is_string, is_some, is_blank_text, set_field}
use hey_proxy.Messages.Response.{Fallible, or_err}
use hey_proxy.Messages.Steps.{StepOf, and_then}
use hey_proxy.Chat.Response
use hey_proxy.Chat.Response.{texts, reasoning_details, then_str}
use hey_proxy.Chat.Deltas.{
  limit, widths, byte_len, TextKey, same_text_key, SummaryKey, same_flag, same_summary_key, Tool,
  State, new, Step, optional_text, bare_chunk, chunk, retain, send, unsent, send_text, text,
  reasoning_delta, send_summary, summary, tool_delta, arguments_delta, send_arguments, arguments_of,
  arguments,
}

module _ (printed_len : Value → ℕ) where
  unfoldable pub open_tool : Option Tool → ℕ → Value → State → Step
  unfolding send
  open_tool (some _) key item s = ok (s, [])
  open_tool none key item s =
      let number = length s.tools in
      ensure (is_string (index item "call_id") && is_string (index item "name"))
        "Function call lacks identity"
      >> send (printed_len item) (tool_delta number item)
          (record s { tools = put_key ◌==◌ key (number, item, "") s.tools })

  unfoldable pub tool : ℕ → Value → Bool → State → Step
  unfolding open_tool arguments
  tool key item full s = and_then (open_tool (find_key ◌==◌ key s.tools) key item s) λ t.
      if full
      then arguments key (unwrap_or (as_str (index item "arguments")) "") true t
      else ok (t, [])

  unfoldable pub part : ℕ → ℕ → Option String → Value → State → Step
  unfolding text
  part i content none p s = err "Unsupported response content in chat stream"
  part i content (some kind) p s =
      if str_eq kind "output_text"
      then text (i, content, "content") (unwrap_or (as_str (index p "text")) "") true s
      else if str_eq kind "refusal"
      then text (i, content, "refusal") (unwrap_or (as_str (index p "refusal")) "") true s
      else err "Unsupported response content in chat stream"

  unfoldable pub parts : ℕ → ℕ → List Value → State → Step
  unfolding part
  parts i content [] s = ok (s, [])
  parts i content (p ∷ ps) s =
      and_then (part i content (as_str (index p "type")) p s) (parts i (suc content) ps)

  abbrev pub holds : ℕ → List ℕ → Bool
  holds i is = any (λ j. i == j) is

  abbrev pub is_encrypted : Value → Bool
  is_encrypted v = is_text "reasoning.encrypted" (index v "type")

  -- `find(…).unwrap()`: the details of an item with encrypted content hold one.
  abbrev pub encrypted_delta : Value → Value
  encrypted_delta detail = obj (("reasoning_details", list (detail ∷ [])) ∷ [])

  abbrev pub first_encrypted : Value → ℕ → Value
  first_encrypted item i = unwrap_or (find is_encrypted (reasoning_details item i)) null

  unfoldable pub carry : ℕ → Value → State → Step
  unfolding reasoning_details send
  carry i item s =
      let detail = first_encrypted item i in
      let sent =
        send (printed_len detail) (encrypted_delta detail)
          (record s { encrypted = i ∷ s.encrypted }) in
      if is_string (index item "encrypted_content") && not (holds i s.encrypted)
      then sent
      else ok (s, [])

  unfoldable pub reasoning : ℕ → Value → State → Step
  unfolding summary carry
  reasoning i item s =
      and_then (summary (i, false) (index item "id") (texts (index item "summary")) true s) λ t.
        and_then (summary (i, true) (index item "id") (texts (index item "content")) true t)
          (carry i item)

  abbrev pub message_item : ℕ → Value → Bool → State → Step
  message_item i item full s =
      let all_parts =
        or_err (as_array (index item "content")) "Message lacks content" >>= λ ps. parts i 0 ps s in
      if full then all_parts else ok (s, [])

  unfoldable pub item_of : Option String → ℕ → Value → Bool → State → Step
  unfolding tool parts reasoning
  item_of none i item full s = err "Unsupported response output in chat stream"
  item_of (some kind) i item full s =
      if str_eq kind "function_call"
      then tool i item full s
      else if str_eq kind "message"
      then message_item i item full s
      else if str_eq kind "reasoning"
      then (if full && not s.exclude_reasoning then reasoning i item s else ok (s, []))
      else err "Unsupported response output in chat stream"

  abbrev pub item : ℕ → Value → Bool → State → Step
  item i v full s = item_of (as_str (index v "type")) i v full s

  unfoldable pub items : ℕ → List Value → State → Step
  unfolding item_of
  items i [] s = ok (s, [])
  items i (v ∷ vs) s = and_then (item i v true s) (items (suc i) vs)

  -- The first event: the identity of the response, and the role.
  abbrev pub named_by : Option Value → State → State
  named_by none s = s
  named_by (some response) s = record s {
    id = elim (as_str (index response "id")) [ some id ↦ join "chatcmpl-" id | none ↦ s.id ];
    created = unwrap_or (as_u64 (index response "created_at")) s.created;
    gemini = is_some_and (has_prefix "gemini/") (as_str (index response "model"));
  }

  unfoldable pub begin : Value → State → State × List Value
  unfolding chunk strip_prefix
  begin event s =
      let t = record (named_by (get event "response") s) { started = true } in
      if s.started
      then (s, [])
      else (t, chunk t (obj (("role", string "assistant") ∷ ("content", string "") ∷ [])) none ∷ [])

  abbrev pub usage_chunk : State → Value → List Value
  usage_chunk s response =
      if s.include_usage
      then set_field "usage" (Response.usage (index response "usage"))
          (set_field "choices" (list []) (chunk s (obj []) none))
        ∷ []
      else []

  -- The end of a response: what was not sent of its output, then the finish reason and the usage.
  abbrev pub finish : Value → State → Step
  finish response s = Response.finish_reason response >>= λ reason.
      ok (record s { over = true }, chunk s (obj []) (some reason) ∷ usage_chunk s response)

  unfoldable pub complete : Value → State → Step
  unfolding items chunk Response.finish_reason Response.usage
  complete response s =
      or_err (as_array (index response "output")) "Terminal response lacks output" >>= λ output.
      and_then (items 0 output s) (finish response)

  abbrev pub number_at : Value → String → ℕ
  number_at event key = unwrap_or (as_u64 (index event key)) 0

  unfoldable pub by_kind : String → Value → State → Step
  unfolding item_of text summary arguments complete
  by_kind kind event s =
      let i = number_at event "output_index" in
      let content = number_at event "content_index" in
      let delta = unwrap_or (as_str (index event "delta")) "" in
      if str_eq kind "response.output_item.added"
      then item i (index event "item") false s
      else if str_eq kind "response.output_item.done"
      then item i (index event "item") true s
      else if str_eq kind "response.output_text.delta"
      then text (i, content, "content") delta false s
      else if str_eq kind "response.refusal.delta"
      then text (i, content, "refusal") delta false s
      else if str_eq kind "response.reasoning_summary_text.delta"
      then summary (i, false) (index event "item_id") delta false s
      else if str_eq kind "response.reasoning_text.delta"
      then summary (i, true) (index event "item_id") delta false s
      else if str_eq kind "response.function_call_arguments.delta"
      then arguments i delta false s
      else if one_of ("response.completed" ∷ "response.incomplete" ∷ []) kind
      then complete (index event "response") s
      else ok (s, [])

  abbrev pub failed_with : Value → Value
  failed_with event = obj (
      (
        "error",
        unwrap_or (or_else (get event "error") (pointer event ("response" ∷ "error" ∷ []))) (
            obj (
              (
                "message",
                string (unwrap_or (then_str (get event "message")) "Responses stream failed"),
              )
              ∷ ("type", string "server_error")
              ∷ [])),
      )
      ∷ [])

  unfoldable pub begun : String → Value → State → Step
  unfolding begin by_kind
  begun kind event s =
      if one_of ("error" ∷ "response.failed" ∷ []) kind
      then ok (record s { over = true }, failed_with event ∷ [])
      else and_then (ok (begin event s)) (by_kind kind event)

  unfoldable pub event : Value → State → Step
  unfolding begun
  event v s =
      if s.over
      then ok (s, [])
      else (or_err (as_str (index v "type")) "Responses stream event lacks type" >>= λ kind.
          begun kind v s)
