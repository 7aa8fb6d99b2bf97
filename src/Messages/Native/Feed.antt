-- ===== src/Messages/Native/Feed.antt =====
-- src/proxy/messages/gemini_stream.rs, `feed`: one native chunk.
use hey_proxy.Base.{
  ℕ, zero, suc, String, Bool, true, false, not, ◌&&◌, ◌||◌, Option, none, some, List, [], ◌∷◌, ◌++◌,
  if◌then◌else◌, str_eq, leb, ◌==◌, any, length, last, but_last, ok, err, ◌>>=◌, ◌>>◌, ensure,
}
use hey_proxy.Base.Text.{join}
use hey_proxy.Json.{Value, number, unsigned, string, object, Fields, end, field}
use hey_proxy.Json.Access.{get, index, pointer, as_str, as_array, is_true, is_text, one_of, or_else}
use hey_proxy.Json.Build.{obj, nat, unwrap_or, is_object, is_some, is_blank_text, set_field}
use hey_proxy.Messages.Events.{
  block_delta, thinking_start, thinking_delta, text_start, text_delta, input_delta,
}
use hey_proxy.Messages.Steps.{and_then}
use hey_proxy.Messages.Response.{Fallible, or_err}
use hey_proxy.Messages.Stream.{limit, saturating_add}
use hey_proxy.Partial
use hey_proxy.Partial.{PartialCalls, PartialError, pending}
use hey_proxy.Messages.Native.{
  Step, counted, with_content, block, take_usage, begin, text_of, take_block_reason, Backend,
  NativeRequest, NativeStream,
}

-- The block that is written to, if it is of the kind.
abbrev pub same_flag : Bool → Bool → Bool
same_flag true b = b
same_flag false b = not b

abbrev pub active_index : Bool → Option (ℕ × Bool) → Option ℕ
active_index thought (some (i, t)) = if same_flag t thought then some i else none
active_index thought none = none

abbrev pub start_of : Bool → Value
start_of thought = if thought then thinking_start else text_start

abbrev pub delta_of : Bool → String → Value
delta_of thought text = if thought then thinking_delta text else text_delta text

abbrev pub field_of : Bool → String
field_of thought = if thought then "thinking" else "text"

-- `content[i] = f(content[i])`
abbrev pub change_elem : ℕ → (Value → Value) → List Value → List Value
change_elem i f [] = []
change_elem zero f (v ∷ vs) = f v ∷ vs
change_elem (suc i) f (v ∷ vs) = v ∷ change_elem i f vs

abbrev pub append_text : String → String → Value → Value
append_text key text b = set_field key (string (join (unwrap_or (as_str (index b key)) "") text)) b

unfoldable pub write_at : Option ℕ → Bool → String → NativeStream → Step
unfolding block
write_at (some i) thought text s = ok (
  with_content (change_elem i (append_text (field_of thought) text) s.message.content) s,
  block_delta i (delta_of thought text) ∷ [],
)
write_at none thought text s =
    let i = length s.message.content in
    let (t, es) = block (start_of thought) s in
    ok (
      with_content (change_elem i (append_text (field_of thought) text) t.message.content)
          (record t { active = some (i, thought) }),
      es ++ block_delta i (delta_of thought text) ∷ [],
    )

abbrev pub entry : String → List (String × String) → Option String
entry key [] = none
entry key ((k, v) ∷ rest) = let found = entry key rest in if str_eq k key then some v else found

abbrev pub named : String → List (String × String) → Option String
named name [] = none
named name ((k, v) ∷ rest) = let found = named name rest in if str_eq v name then some v else found

abbrev pub find_tool : String → List (String × String) → Option String
find_tool native tools = or_else (entry native tools) (named native tools)

abbrev pub is_use_of : String → Value → Bool
is_use_of id b = is_text "tool_use" (index b "type") && is_text id (index b "id")

abbrev pub tool_start : String → String → Value
tool_start id name = obj (
    ("type", string "tool_use")
    ∷ ("id", string id)
    ∷ ("name", string name)
    ∷ ("input", obj [])
    ∷ [])

-- The block of a call, with its input.
unfoldable pub write_call : String → String → Value → String → NativeStream → Step
unfolding block
write_call id name args text s =
    let i = length s.message.content in
    let (t, es) = block (tool_start id name) s in
    ok (
      with_content (change_elem i (set_field "input" args) t.message.content)
          (record t { active = none }),
      es ++ block_delta i (input_delta text) ∷ [],
    )

abbrev pub keys_known : Fields → Bool
keys_known end = true
keys_known (field key v fs) =
    one_of ("text" ∷ "thought" ∷ "thoughtSignature" ∷ "functionCall" ∷ []) key && keys_known fs

abbrev pub has_known_keys : Value → Bool
has_known_keys (object fs) = keys_known fs
has_known_keys _ = false

abbrev pub is_signature : Value → Bool
is_signature (object (field key v end)) = str_eq key "thoughtSignature"
is_signature _ = false

-- The content of a candidate, then its finish reason.
abbrev pub is_first : Option Value → Bool
is_first (some (number (unsigned n))) = n == 0
is_first (some _) = false
is_first none = true

abbrev pub content_parts : Option Value → Fallible (List Value)
content_parts none = ok []
content_parts (some p) = or_err (as_array p) "Invalid Gemini content parts"

unfoldable pub take_reason : Option Value → NativeStream → Step
take_reason none s = ok (s, [])
take_reason (some reason) s = or_err (as_str reason) "Invalid Gemini finish reason" >>= λ text.
    ok (record s { reason = some text }, [])

module _ (backend : Backend) (request : NativeRequest) where
  -- One part: what it adds to the message.
  unfoldable pub write_text : Option String → Bool → NativeStream → Step
  unfolding write_at
  write_text none thought s = err "Gemini text must be a string"
  write_text (some text) thought s =
      if is_blank_text text || (thought && not request.display_thinking)
      then ok (s, [])
      else write_at (active_index thought s.active) thought text s

  abbrev pub made_id : NativeStream → String
  made_id s =
      join "toolu_" (join s.id (join "_" (backend.printed (nat (length s.message.content)))))

  unfoldable pub call : Value → NativeStream → Step
  unfolding write_call
  call c s = do
    native ← or_err (as_str (index c "name")) "Function call lacks name"
    name ← or_err (find_tool native request.tools) (join "Gemini called undeclared tool " native)
    let args = unwrap_or (get c "args") (obj [])
    ensure (is_object args) "Tool input must be an object"
    let id = unwrap_or (as_str (index c "id")) (made_id s)
    ensure (not (any (is_use_of id) s.message.content)) "Duplicate Gemini tool id"
    write_call id name args (backend.printed args) s

  unfoldable pub write_rest : Option Value → Value → NativeStream → Step
  unfolding call
  write_rest (some c) part s = call c s
  write_rest none part s = ensure (is_signature part) "Unsupported empty Gemini part" >> ok (s, [])

  unfoldable pub write : Option Value → Value → NativeStream → Step
  unfolding write_text write_rest
  write (some text) part s = write_text (as_str text) (is_true (index part "thought")) s
  write none part s = write_rest (get part "functionCall") part s

  -- Native chunks can split signed text: unsigned text of the same kind is joined.
  abbrev pub joins : Value → Value → Bool
  joins p part =
      is_some (get p "text")
      && is_some (get part "text")
      && backend.same (index p "thought") (index part "thought")
      && not (is_some (get p "thoughtSignature"))

  abbrev pub joined_part : Value → Value → Value
  joined_part p part =
      let text =
        join (unwrap_or (as_str (index p "text")) "") (unwrap_or (as_str (index part "text")) "") in
      let q = set_field "text" (string text) p in
      elim (get part "thoughtSignature") [
        | some signature ↦ set_field "thoughtSignature" signature q
        | none ↦ q
      ]

  abbrev pub keep_behind : Option Value → Value → List Value → List Value
  keep_behind (some p) part native =
      if joins p part then but_last native ++ joined_part p part ∷ [] else native ++ part ∷ []
  keep_behind none part native = part ∷ []

  abbrev pub keep : Value → NativeStream → NativeStream
  keep part s = record s { native = keep_behind (last s.native) part s.native }

  unfoldable pub one_part : Value → NativeStream → Step
  unfolding write
  one_part part s = do
    ensure (is_object part) "Invalid Gemini part"
    ensure (has_known_keys part) "Unsupported Gemini output part"
    and_then (write (get part "text") part s) λ t. ok (keep part t, [])

  unfoldable pub all_parts : List Value → NativeStream → Step
  unfolding one_part
  all_parts [] s = ok (s, [])
  all_parts (part ∷ parts) s = and_then (one_part part s) (all_parts parts)

  abbrev pub assembled : Partial.Parted → Fallible (PartialCalls × List Value)
  assembled (ok r) = ok r
  assembled (err e) = err (backend.refusal_text e)

  unfoldable pub raw_parts : List Value → NativeStream → Step
  unfolding all_parts Partial.part
  raw_parts [] s = ok (s, [])
  raw_parts (raw ∷ raws) s =
      let step = do
        ensure (not (is_some s.reason)) "Gemini emitted content after its finish reason"
        (calls, parts) ← assembled (Partial.part backend.same s.partial raw)
        all_parts parts (record s { partial = calls })
      in and_then step (raw_parts raws)

  unfoldable pub take_candidate : Value → NativeStream → Step
  unfolding raw_parts take_reason
  take_candidate candidate s = do
    ensure (is_first (get candidate "index")) "Unexpected Gemini candidate index"
    raws ← content_parts (pointer candidate ("content" ∷ "parts" ∷ []))
    and_then (raw_parts raws s) (take_reason (get candidate "finishReason"))

  unfoldable pub take_first : List Value → NativeStream → Step
  unfolding take_candidate
  take_first [] s = ok (s, [])
  take_first (candidate ∷ []) s = take_candidate candidate s
  take_first (_ ∷ _ ∷ _) s = err "Cannot discard multiple Gemini candidates"

  unfoldable pub take_candidates : Option Value → NativeStream → Step
  unfolding take_first
  take_candidates none s = ok (s, [])
  take_candidates (some v) s =
      or_err (as_array v) "Gemini candidates must be an array" >>= λ cs. take_first cs s

  unfoldable pub count_bytes : Value → NativeStream → Fallible NativeStream
  count_bytes chunk s =
      let total = saturating_add s.bytes (backend.printed_len chunk) in
      do ensure (leb total limit) "Gemini response exceeds 64 MiB"; ok (record s { bytes = total })

  unfoldable pub feed : Value → NativeStream → Step
  unfolding count_bytes take_usage begin take_block_reason take_candidates
  feed chunk s = do
    counted ← count_bytes chunk s
    ensure (not (is_some (get chunk "error"))) "Gemini stream returned an error"
    used ← take_usage (get chunk "usageMetadata") counted
    and_then (begin used) λ begun. do
      told ←
          take_block_reason (text_of (pointer chunk ("promptFeedback" ∷ "blockReason" ∷ []))) begun
      take_candidates (get chunk "candidates") told
