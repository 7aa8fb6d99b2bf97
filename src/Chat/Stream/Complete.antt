-- ===== src/Chat/Stream/Complete.antt =====
-- Every event of a chat stream keeps the calls of a client in agreement with those of the state.
use mathlib.Core.Path.{subst}
use hey_proxy.Base.{
  ℕ, String, Bool, true, false, Option, none, some, List, [], ◌∷◌, ◌≡◌, refl, sym, ◌∙◌,
  if◌then◌else◌, Bool-cases, inl, inr, ok, str_eq,
}
use hey_proxy.Json.{Value}
use hey_proxy.Json.Update.{put_field}
use hey_proxy.Json.Access.{get, index, as_str, as_array, one_of}
use hey_proxy.Json.Build.{obj, unwrap_or}
use hey_proxy.Messages.Steps.{and_then}
use hey_proxy.Messages.Response.{or_err}
use hey_proxy.Chat.Response
use hey_proxy.Chat.Deltas.{State, Step, chunk}
use hey_proxy.Chat.Stream.{
  named_by, begin, usage_chunk, finish, complete, by_kind, begun, number_at, event, items,
  failed_with,
}
use hey_proxy.Chat.Client.{Call, hear, hear_all, hear_delta, hear-chunk}
use hey_proxy.Chat.Stream.Calls.{Agrees}
use hey_proxy.Chat.Stream.Keeps.{
  Tools, Keeps, and_then-Keeps, stay-Keeps, one-Keeps, cond-Keeps, bind-Keeps, text-Keeps,
  summary-Keeps,
}
use hey_proxy.Chat.Stream.Tells.{IsStable, arguments-Keeps}
use hey_proxy.Chat.Stream.Events.{item_of-Keeps, items-Keeps}

module _ (printed_len : Value → ℕ) (P : Tools → Type 0) where
  -- A chunk that tells nothing of the calls.
  quiet-Keeps :
      (calls : List Call) (s : State) (c : Value) (cs : List Value)
      → hear c calls ≡ calls
      → Keeps P calls (ok (s, cs))
      → Keeps P calls (ok (s, c ∷ cs))
  unfolding hear_all
  quiet-Keeps calls s c cs e (a, p) =
      (subst (λ heard. Agrees s.tools (hear_all cs heard)) (sym e) a, p)

  choice-Keeps :
      (calls : List Call) (b : Bool) (x y : State × List Value)
      → Keeps P calls (ok x)
      → Keeps P calls (ok y)
      → Keeps P calls (ok (if b then x else y))
  choice-Keeps calls true x y h g = h
  choice-Keeps calls false x y h g = g

  first_chunk-Keeps :
      (calls : List Call) (response : Option Value) (delta : Value) (s : State)
      → hear_delta delta calls ≡ calls
      → Agrees s.tools calls
      → P s.tools
      → (let t : State = record (named_by printed_len response s) { started = true } in
          Keeps P calls (ok (t, chunk t delta none ∷ [])))
  first_chunk-Keeps calls none delta s e a p =
      let t : State = record s { started = true } in
      one-Keeps P calls calls t (chunk t delta none) (hear-chunk t delta none calls ∙ e) a p
  first_chunk-Keeps calls (some v) delta s e a p =
      let t : State = record (named_by printed_len (some v) s) { started = true } in
      one-Keeps P calls calls t (chunk t delta none) (hear-chunk t delta none calls ∙ e) a p

  pub begin-Keeps :
      (calls : List Call) (v : Value) (s : State)
      → Agrees s.tools calls
      → P s.tools
      → Keeps P calls (ok (begin printed_len v s))
  unfolding begin
  begin-Keeps calls v s a p =
      choice-Keeps calls s.started (s, []) _ (stay-Keeps P calls s a p)
        (first_chunk-Keeps calls (get v "response") _ s refl a p)

  usage_chunk-Keeps :
      (calls : List Call) (response : Value) (s : State)
      → Agrees s.tools calls
      → P s.tools
      → Keeps P calls (ok (s, usage_chunk printed_len s response))
  unfolding hear chunk put_field
  usage_chunk-Keeps calls response s a p = elim (Bool-cases s.include_usage) [
    | inl e ↦ rw e (quiet-Keeps calls s _ [] refl (stay-Keeps P calls s a p))
    | inr e ↦ rw e (stay-Keeps P calls s a p)
  ]

  pub finish-Keeps :
      (calls : List Call) (response : Value) (s : State)
      → Agrees s.tools calls
      → P s.tools
      → Keeps P calls (finish printed_len response s)
  finish-Keeps calls response s a p =
      bind-Keeps P calls (Response.finish_reason response) _ λ reason e.
        quiet-Keeps calls (record s { over = true }) (chunk s (obj []) (some reason))
          (usage_chunk printed_len s response) (hear-chunk s (obj []) (some reason) calls)
          (usage_chunk-Keeps calls response s a p)

  complete-Keeps :
      (calls : List Call) (response : Value) (s : State)
      → Agrees s.tools calls
      → ((k : ℕ) → IsStable P k)
      → P s.tools
      → Keeps P calls (complete printed_len response s)
  unfolding complete
  complete-Keeps calls response s a stable p =
      bind-Keeps P calls
        (or_err (as_array (index response "output")) "Terminal response lacks output")
        (λ output. and_then (items printed_len 0 output s) (finish printed_len response))
        λ output e.
          and_then-Keeps P P calls (items printed_len 0 output s) (finish printed_len response)
            (items-Keeps printed_len P calls 0 output s a (λ k h. stable k) p)
            λ t heard b q. finish-Keeps heard response t b q

  -- The events that go on with the output.
  pub by_kind-Keeps :
      (calls : List Call) (kind : String) (v : Value) (s : State)
      → Agrees s.tools calls
      → ((k : ℕ) → IsStable P k)
      → P s.tools
      → Keeps P calls (by_kind printed_len kind v s)
  unfolding by_kind complete
  by_kind-Keeps calls kind v s a stable p =
      let i = number_at printed_len v "output_index" in
      let delta = unwrap_or (as_str (index v "delta")) "" in
      let v_item = index v "item" in
      cond-Keeps P calls (str_eq kind "response.output_item.added") _ _
        (item_of-Keeps printed_len P calls (as_str (index v_item "type")) i v_item false s a
          (stable i) p)
        (cond-Keeps P calls (str_eq kind "response.output_item.done") _ _
          (item_of-Keeps printed_len P calls (as_str (index v_item "type")) i v_item true s a
            (stable i) p)
          (cond-Keeps P calls (str_eq kind "response.output_text.delta") _ _
            (text-Keeps P calls s a p i _ "content" delta false λ d c. refl)
            (cond-Keeps P calls (str_eq kind "response.refusal.delta") _ _
              (text-Keeps P calls s a p i _ "refusal" delta false λ d c. refl)
              (cond-Keeps P calls (str_eq kind "response.reasoning_summary_text.delta") _ _
                (summary-Keeps P calls s a p i false _ delta false)
                (cond-Keeps P calls (str_eq kind "response.reasoning_text.delta") _ _
                  (summary-Keeps P calls s a p i true _ delta false)
                  (cond-Keeps P calls (str_eq kind "response.function_call_arguments.delta") _ _
                    (arguments-Keeps P calls s a i delta false (stable i) p)
                    (cond-Keeps P calls
                      (one_of ("response.completed" ∷ "response.incomplete" ∷ []) kind) _
                      (ok (s, [])) (complete-Keeps calls (index v "response") s a stable p)
                      (stay-Keeps P calls s a p))))))))

  begun-Keeps :
      (calls : List Call) (kind : String) (v : Value) (s : State)
      → Agrees s.tools calls
      → ((k : ℕ) → IsStable P k)
      → P s.tools
      → Keeps P calls (begun printed_len kind v s)
  unfolding begun hear
  begun-Keeps calls kind v s a stable p =
      cond-Keeps P calls (one_of ("error" ∷ "response.failed" ∷ []) kind) _ _
        (one-Keeps P calls calls (record s { over = true }) (failed_with printed_len v) refl a p)
        (and_then-Keeps P P calls (ok (begin printed_len v s)) (by_kind printed_len kind v)
          (begin-Keeps calls v s a p) λ t heard b q. by_kind-Keeps heard kind v t b stable q)

  pub event-Keeps :
      (calls : List Call) (v : Value) (s : State)
      → Agrees s.tools calls
      → ((k : ℕ) → IsStable P k)
      → P s.tools
      → Keeps P calls (event printed_len v s)
  unfolding event
  event-Keeps calls v s a stable p =
      cond-Keeps P calls s.over (ok (s, [])) _ (stay-Keeps P calls s a p) (
        bind-Keeps P calls (or_err (as_str (index v "type")) "Responses stream event lacks type")
          (λ kind. begun printed_len kind v s) λ kind e. begun-Keeps calls kind v s a stable p)

pub Keeps-eq_ok :
    (P : Tools → Type 0) (calls : List Call) (m : Step) (t : State) (es : List Value)
    → Keeps P calls m
    → m ≡ ok (t, es)
    → Agrees t.tools (hear_all es calls) × P t.tools
Keeps-eq_ok P calls m t es h e = subst (Keeps P calls) e h

-- If the calls that a client has put together are those of the state, each at its number, then after
-- every event that is taken the calls of the client, who has heard the chunks, are those of the new state.
pub event-Agrees :
    (printed_len : Value → ℕ) (v : Value) (s t : State) (es : List Value) (calls : List Call)
    → Agrees s.tools calls
    → event printed_len v s ≡ ok (t, es)
    → Agrees t.tools (hear_all es calls)
event-Agrees printed_len v s t es calls a e =
    (Keeps-eq_ok (λ tools. Unit {0}) calls (event printed_len v s) t es
      (event-Keeps printed_len (λ tools. Unit {0}) calls v s a (λ k u tools p. tt) tt) e).0
