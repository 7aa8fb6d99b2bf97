-- ===== src/Chat/Stream/Hears.antt =====
-- What a client of a chat stream has heard of the calls when the response is complete.
use mathlib.Core.Path.{subst}
use hey_proxy.Base.{
  ℕ, zero, suc, ◌+◌, String, Bool, true, false, Option, some, List, [], ◌∷◌, ◌≡◌, refl, sym, arith,
  if◌then◌else◌, get_elem?, ok, ◌>>=◌,
}
use hey_proxy.Json.{Value}
use hey_proxy.Json.Access.{index, as_str, as_array}
use hey_proxy.Json.Build.{unwrap_or}
use hey_proxy.Messages.Steps.{and_then}
use hey_proxy.Messages.Response.{or_err}
use hey_proxy.Chat.Deltas.{Tool, State, Step}
use hey_proxy.Chat.Stream.{begin, finish, complete, by_kind, begun, event, items, item_of}
use hey_proxy.Chat.Client.{Call, hear_all}
use hey_proxy.Chat.Stream.Calls.{Agrees, call_of}
use hey_proxy.Chat.Stream.Keeps.{Tools, Keeps, and_then-Keeps}
use hey_proxy.Chat.Stream.Tells.{Done, Done-IsStable, tool-Done}
use hey_proxy.Chat.Stream.Events.{item_of-Keeps, items-Keeps}
use hey_proxy.Chat.Stream.Complete.{finish-Keeps, begin-Keeps, Keeps-eq_ok}

-- The arguments of a call of the output.
abbrev pub arguments_in : Value → String
arguments_in v = unwrap_or (as_str (index v "arguments")) ""

module _ (printed_len : Value → ℕ) where
  call-Done :
      (calls : List Call) (kind : Option String) (i : ℕ) (v : Value) (s : State)
      → Agrees s.tools calls
      → kind ≡ some "function_call"
      → Keeps (Done i (arguments_in v)) calls (item_of printed_len kind i v true s)
  unfolding item_of
  call-Done calls kind i v s a e =
      subst (λ k. Keeps (Done i (arguments_in v)) calls (item_of printed_len k i v true s)) (sym e)
        (tool-Done printed_len calls i v s a)

  first-Done :
      (calls : List Call) (i : ℕ) (vs : List Value) (v : Value) (s : State)
      → Agrees s.tools calls
      → as_str (index v "type") ≡ some "function_call"
      → Keeps (Done i (arguments_in v)) calls (items printed_len i (v ∷ vs) s)
  unfolding items
  first-Done calls i vs v s a e =
      let args = arguments_in v in
      and_then-Keeps (Done i args) (Done i args) calls _ _
        (call-Done calls (as_str (index v "type")) i v s a e)
        λ t heard b q.
          items-Keeps printed_len (Done i args) heard (suc i) vs t b
            (λ k h. Done-IsStable i k args (ground (arith, h))) q

  items-Done :
      (calls : List Call) (i j : ℕ) (vs : List Value) (v : Value) (s : State)
      → Agrees s.tools calls
      → get_elem? vs j ≡ some v
      → as_str (index v "type") ≡ some "function_call"
      → Keeps (Done (i + j) (arguments_in v)) calls (items printed_len i vs s)
  unfolding items
  items-Done calls i j [] v s a h e = cc
  items-Done calls i zero (w ∷ vs) v s a h e =
      let same : w ≡ v = cc in
      let at_i : i ≡ i + 0 = omega arith in
      subst (λ x. Keeps (Done (i + 0) (arguments_in v)) calls (items printed_len i (x ∷ vs) s))
        (sym same)
        (subst (λ m. Keeps (Done m (arguments_in v)) calls (items printed_len i (v ∷ vs) s)) at_i
          (first-Done calls i vs v s a e))
  items-Done calls i (suc j) (w ∷ vs) v s a h e =
      let at_j : suc i + j ≡ i + suc j = omega arith in
      and_then-Keeps (λ tools. Unit {0}) (Done (i + suc j) (arguments_in v)) calls _ _
        (item_of-Keeps printed_len (λ tools. Unit {0}) calls (as_str (index w "type")) i w true s a
          (λ t tools p. tt) tt)
        λ t heard b q.
          subst (λ m. Keeps (Done m (arguments_in v)) heard (items printed_len (suc i) vs t)) at_j
            (items-Done heard (suc i) j vs v t b h e)

  module _ (i : ℕ) (v : Value) (is_call : as_str (index v "type") ≡ some "function_call") where
    complete-Done :
        (calls : List Call) (response : Value) (output : List Value) (s : State)
        → Agrees s.tools calls
        → as_array (index response "output") ≡ some output
        → get_elem? output i ≡ some v
        → Keeps (Done i (arguments_in v)) calls (complete printed_len response s)
    unfolding complete
    complete-Done calls response output s a holds_output at_i =
        let P = Done i (arguments_in v) in
        let zero_first : 0 + i ≡ i = omega arith in
        let next : List Value → Step =
          λ out. and_then (items printed_len 0 out s) (finish printed_len response) in
        subst (λ o. Keeps P calls (or_err o "Terminal response lacks output" >>= next))
          (sym holds_output)
          (and_then-Keeps P P calls (items printed_len 0 output s) (finish printed_len response)
            (subst (λ m. Keeps (Done m (arguments_in v)) calls (items printed_len 0 output s))
              zero_first (items-Done calls 0 i output v s a at_i is_call))
            λ t heard b q. finish-Keeps printed_len P heard response t b q)

-- The types of the events that end a response.
abbrev pub terminal_type : Bool → String
terminal_type true = "response.completed"
terminal_type false = "response.incomplete"

begun-Done :
    (printed_len : Value → ℕ) (P : Tools → Type 0) (calls : List Call) (completed : Bool)
    (v : Value) (s : State)
    → Agrees s.tools calls
    → ((t : State) (heard : List Call)
        → Agrees t.tools heard
        → Keeps P heard (complete printed_len (index v "response") t))
    → Keeps P calls (begun printed_len (terminal_type completed) v s)
unfolding begun by_kind
begun-Done printed_len P calls true v s a h =
    and_then-Keeps (λ tools. Unit {0}) P calls (ok (begin printed_len v s)) _
      (begin-Keeps printed_len (λ tools. Unit {0}) calls v s a tt) λ t heard b q. h t heard b
begun-Done printed_len P calls false v s a h =
    and_then-Keeps (λ tools. Unit {0}) P calls (ok (begin printed_len v s)) _
      (begin-Keeps printed_len (λ tools. Unit {0}) calls v s a tt) λ t heard b q. h t heard b

-- If the calls that a client has put together are those of the state of a stream that has not ended,
-- and an event that ends the response is taken, whose output has a function call, then the client has
-- heard a call with exactly that call's arguments.
pub event-hears_calls :
    (printed_len : Value → ℕ) (v call : Value) (output : List Value) (completed : Bool) (i : ℕ)
    (s t : State) (es : List Value) (calls : List Call)
    → Agrees s.tools calls
    → s.over ≡ false
    → as_str (index v "type") ≡ some (terminal_type completed)
    → as_array (index (index v "response") "output") ≡ some output
    → get_elem? output i ≡ some call
    → as_str (index call "type") ≡ some "function_call"
    → event printed_len v s ≡ ok (t, es)
    → (n : ℕ) × (c : Call) × (get_elem? (hear_all es calls) n ≡ some c)
      × (c.arguments ≡ arguments_in call)
unfolding event
event-hears_calls printed_len v call output completed i s t es calls a going kind holds_output at_i
      is_call taken =
    let P = Done i (arguments_in call) in
    let step : Option String → Step =
      λ o. or_err o "Responses stream event lacks type" >>= λ k. begun printed_len k v s in
    let kept : Keeps P calls (step (some (terminal_type completed))) =
      begun-Done printed_len P calls completed v s a λ u heard b.
        complete-Done printed_len i call is_call heard (index v "response") output u b holds_output
          at_i in
    let at_type : Keeps P calls (step (as_str (index v "type"))) =
      subst (λ o. Keeps P calls (step o)) (sym kind) kept in
    let whole : Keeps P calls (event printed_len v s) =
      subst (λ b. Keeps P calls (if b then ok (s, []) else step (as_str (index v "type"))))
        (sym going) at_type in
    let result = Keeps-eq_ok P calls (event printed_len v s) t es whole taken in
    let tool : Tool = (result.1.0, result.1.1, arguments_in call) in
    (tool.0, call_of tool, result.0.told i tool result.1.2, refl)
