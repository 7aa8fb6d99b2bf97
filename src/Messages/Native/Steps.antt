-- ===== src/Messages/Native/Steps.antt =====
-- Each part of `feed` is followed by the client.
use hey_proxy.Base.{
  ℕ, String, Bool, true, false, not, ◌&&◌, ◌||◌, Option, none, some, List, [], ◌∷◌, ◌≡◌, refl,
  arith, length, get_elem?, Bool-cases, inl, inr, ok, ensure, any,
}
use hey_proxy.Base.Text.{join}
use hey_proxy.Json.{Value}
use hey_proxy.Json.Access.{get, index, as_str, as_array, is_true, pointer}
use hey_proxy.Json.Build.{is_blank_text, set_field, is_object, is_some, unwrap_or, obj}
use hey_proxy.Messages.Protocol.{Kind, Client, follow_all, typed, block_kind, delta_kind}
use hey_proxy.Messages.Events.{input_delta}
use hey_proxy.Messages.Response.{or_err}
use hey_proxy.Messages.Follows.{
  with_kind, delta-followed, opened-followed, and_then-IsAccepted, bind-IsAccepted, then-IsAccepted,
}
use hey_proxy.Messages.Native.{Backend, NativeRequest, NativeStream, block}
use hey_proxy.Messages.Native.Feed.{
  write_at, active_index, start_of, delta_of, field_of, append_text, write_call, tool_start,
  write_text, call, find_tool, made_id, is_use_of, write_rest, is_signature, write, keep, one_part,
  has_known_keys, all_parts, assembled, raw_parts, take_reason, content_parts, is_first,
  take_candidate, take_first, take_candidates,
}
use hey_proxy.Messages.Native.Tracks.{
  IsTracked, IsFollowed, Tracks-block, Tracks-change_elem, Tracks-active, block_at, kind_of,
  IsActive, AreOf-length, typed-append_text, typed-set_field,
}
use hey_proxy.Partial
use hey_proxy.Partial.{PartialCalls}

pub nothing-IsFollowed : (c : Client) (s : NativeStream) → IsTracked s c → IsFollowed c (ok (s, []))
unfolding follow_all
nothing-IsFollowed c s t = (c, refl, t)

delta_kind_of :
    (thought : Bool) (text : String)
    → typed delta_kind (delta_of thought text) ≡ some (kind_of thought)
delta_kind_of true text = refl
delta_kind_of false text = refl

start_kind_of : (thought : Bool) → typed block_kind (start_of thought) ≡ some (kind_of thought)
start_kind_of true = refl
start_kind_of false = refl

-- The block that is written to is of the kind of the text.
active_index_at :
    (kinds : List Kind) (thought : Bool) (active : Option (ℕ × Bool)) (i : ℕ)
    → IsActive kinds active
    → active_index thought active ≡ some i
    → get_elem? kinds i ≡ some (kind_of thought)
active_index_at kinds thought none i h e = cc
active_index_at kinds true (some (j, true)) i h e = ground (arith, h, e)
active_index_at kinds false (some (j, false)) i h e = ground (arith, h, e)
active_index_at kinds true (some (j, false)) i h e = cc
active_index_at kinds false (some (j, true)) i h e = cc

module _ (s : NativeStream) (c : Client) (t : IsTracked s c) where
  counted : length s.message.content ≡ length c.kinds
  counted = AreOf-length s.message.content c.kinds t.of_kinds

  write_at-IsFollowed :
      (o : Option ℕ) (thought : Bool) (text : String)
      → active_index thought s.active ≡ o
      → IsFollowed c (write_at o thought text s)
  unfolding write_at block
  write_at-IsFollowed (some i) thought text e =
      let at_i = active_index_at c.kinds thought s.active i t.active_at e in
      (
        c,
        delta-followed c t.is_open i (delta_of thought text) (kind_of thought) at_i
            (delta_kind_of thought text),
        Tracks-change_elem c i (append_text (field_of thought) text)
            (typed-append_text thought text) t,
      )
  write_at-IsFollowed none thought text e =
      let k = kind_of thought in
      let i = length s.message.content in
      let u = Tracks-block c (start_of thought) k t (start_kind_of thought) in
      let v = Tracks-active (with_kind c k) (some (i, thought)) u (block_at c k t) in
      (
        with_kind c k,
        opened-followed c t.is_open i (start_of thought) (delta_of thought text) k counted
            (start_kind_of thought) (delta_kind_of thought text),
        Tracks-change_elem (with_kind c k) i (append_text (field_of thought) text)
            (typed-append_text thought text) v,
      )

  write_call-IsFollowed :
      (id name : String) (args : Value) (text : String)
      → IsFollowed c (write_call id name args text s)
  unfolding write_call block
  write_call-IsFollowed id name args text =
      let i = length s.message.content in
      let u = Tracks-block c (tool_start id name) Kind.tool_use t refl in
      let v = Tracks-active (with_kind c Kind.tool_use) none u tt in
      (
        with_kind c Kind.tool_use,
        opened-followed c t.is_open i (tool_start id name) (input_delta text) Kind.tool_use counted
            refl refl,
        Tracks-change_elem (with_kind c Kind.tool_use) i (set_field "input" args)
            (λ b. typed-set_field "input" args b refl) v,
      )

module _ (backend : Backend) (request : NativeRequest) where
  write_text-IsFollowed :
      (text : Option String) (thought : Bool) (s : NativeStream) (c : Client)
      → IsTracked s c
      → IsFollowed c (write_text backend request text thought s)
  unfolding write_text
  write_text-IsFollowed none thought s c t = tt
  write_text-IsFollowed (some text) thought s c t =
      elim (Bool-cases (is_blank_text text || (thought && not request.display_thinking))) [
        | inl skipped ↦ rw skipped (nothing-IsFollowed c s t)
        | inr written ↦
            rw written (write_at-IsFollowed s c t (active_index thought s.active) thought text refl)
      ]

  call-IsFollowed :
      (v : Value) (s : NativeStream) (c : Client)
      → IsTracked s c
      → IsFollowed c (call backend request v s)
  unfolding call
  call-IsFollowed v s c t =
      let args = unwrap_or (get v "args") (obj []) in
      let id = unwrap_or (as_str (index v "id")) (made_id backend request s) in
      bind-IsAccepted IsTracked c (or_err (as_str (index v "name")) "Function call lacks name") _
        λ native.
          bind-IsAccepted IsTracked c
            (or_err (find_tool native request.tools) (join "Gemini called undeclared tool " native))
            _
            λ name.
              then-IsAccepted IsTracked c (ensure (is_object args) "Tool input must be an object") _
                (then-IsAccepted IsTracked c
                  (ensure (not (any (is_use_of id) s.message.content)) "Duplicate Gemini tool id") _
                  (write_call-IsFollowed s c t id name args (backend.printed args)))

  write-IsFollowed :
      (text call_ : Option Value) (part : Value) (s : NativeStream) (c : Client)
      → IsTracked s c
      → get part "functionCall" ≡ call_
      → IsFollowed c (write backend request text part s)
  unfolding write write_rest
  write-IsFollowed (some text) o part s c t e =
      write_text-IsFollowed (as_str text) (is_true (index part "thought")) s c t
  write-IsFollowed none none part s c t e = rw e (
      then-IsAccepted IsTracked c (ensure (is_signature part) "Unsupported empty Gemini part")
        (ok (s, [])) (nothing-IsFollowed c s t))
  write-IsFollowed none (some v) part s c t e = rw e (call-IsFollowed v s c t)

  one_part-IsFollowed :
      (part : Value) (s : NativeStream) (c : Client)
      → IsTracked s c
      → IsFollowed c (one_part backend request part s)
  unfolding one_part
  one_part-IsFollowed part s c t =
      then-IsAccepted IsTracked c (ensure (is_object part) "Invalid Gemini part") _ (
        then-IsAccepted IsTracked c (ensure (has_known_keys part) "Unsupported Gemini output part")
          _
          (and_then-IsAccepted IsTracked IsTracked c
            (write backend request (get part "text") part s)
            (λ t. ok (keep backend request part t, []))
            (write-IsFollowed (get part "text") (get part "functionCall") part s c t refl)
            (λ d u v. nothing-IsFollowed d (keep backend request part u) v)))

  all_parts-IsFollowed :
      (parts : List Value) (s : NativeStream) (c : Client)
      → IsTracked s c
      → IsFollowed c (all_parts backend request parts s)
  unfolding all_parts
  all_parts-IsFollowed [] s c t = nothing-IsFollowed c s t
  all_parts-IsFollowed (part ∷ parts) s c t =
      and_then-IsAccepted IsTracked IsTracked c (one_part backend request part s)
        (all_parts backend request parts) (one_part-IsFollowed part s c t)
        (λ d u v. all_parts-IsFollowed parts u d v)

  raw_parts-IsFollowed :
      (raws : List Value) (s : NativeStream) (c : Client)
      → IsTracked s c
      → IsFollowed c (raw_parts backend request raws s)
  unfolding raw_parts
  raw_parts-IsFollowed [] s c t = nothing-IsFollowed c s t
  raw_parts-IsFollowed (raw ∷ raws) s c t =
      and_then-IsAccepted IsTracked IsTracked c _ (raw_parts backend request raws)
        (then-IsAccepted IsTracked c
          (ensure (not (is_some s.reason)) "Gemini emitted content after its finish reason") _
          (bind-IsAccepted IsTracked c
            (assembled backend request (Partial.part backend.same s.partial raw)) _
            (λ r. all_parts-IsFollowed r.1 (record s { partial = r.0 }) c t)))
        (λ d u v. raw_parts-IsFollowed raws u d v)

  take_reason-IsFollowed :
      (reason : Option Value) (s : NativeStream) (c : Client)
      → IsTracked s c
      → IsFollowed c (take_reason reason s)
  unfolding take_reason
  take_reason-IsFollowed none s c t = nothing-IsFollowed c s t
  take_reason-IsFollowed (some reason) s c t =
      bind-IsAccepted IsTracked c (or_err (as_str reason) "Invalid Gemini finish reason") _
        (λ text. nothing-IsFollowed c (record s { reason = some text }) t)

  take_candidate-IsFollowed :
      (candidate : Value) (s : NativeStream) (c : Client)
      → IsTracked s c
      → IsFollowed c (take_candidate backend request candidate s)
  unfolding take_candidate
  take_candidate-IsFollowed candidate s c t =
      then-IsAccepted IsTracked c
        (ensure (is_first (get candidate "index")) "Unexpected Gemini candidate index") _
        (bind-IsAccepted IsTracked c (content_parts (pointer candidate ("content" ∷ "parts" ∷ [])))
          _
          (λ raws.
            and_then-IsAccepted IsTracked IsTracked c (raw_parts backend request raws s)
              (take_reason (get candidate "finishReason")) (raw_parts-IsFollowed raws s c t)
              (λ d u v. take_reason-IsFollowed (get candidate "finishReason") u d v)))

  take_first-IsFollowed :
      (s : NativeStream) (c : Client)
      → IsTracked s c
      → (candidates : List Value) → IsFollowed c (take_first backend request candidates s)
  unfolding take_first
  take_first-IsFollowed s c t [] = nothing-IsFollowed c s t
  take_first-IsFollowed s c t (candidate ∷ []) = take_candidate-IsFollowed candidate s c t
  take_first-IsFollowed s c t (first ∷ second ∷ rest) = tt

  pub take_candidates-IsFollowed :
      (v : Option Value) (s : NativeStream) (c : Client)
      → IsTracked s c
      → IsFollowed c (take_candidates backend request v s)
  unfolding take_candidates
  take_candidates-IsFollowed none s c t = nothing-IsFollowed c s t
  take_candidates-IsFollowed (some v) s c t =
      bind-IsAccepted IsTracked c (or_err (as_array v) "Gemini candidates must be an array") _
        (take_first-IsFollowed s c t)
