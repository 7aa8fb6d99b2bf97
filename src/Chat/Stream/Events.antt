-- ===== src/Chat/Stream/Events.antt =====
-- The items of the output keep the calls of a client in agreement with those of the state.
use hey_proxy.Base.{
  ℕ, suc, ◌≤◌, String, Bool, true, false, ◌&&◌, Option, none, some, List, [], ◌∷◌, refl, arith, ok,
  err, str_eq, not,
}
use hey_proxy.Json.{Value}
use hey_proxy.Json.Access.{index, as_str, as_array}
use hey_proxy.Json.Build.{is_string}
use hey_proxy.Messages.Response.{or_err}
use hey_proxy.Chat.Deltas.{State}
use hey_proxy.Chat.Stream.{part, parts, carry, reasoning, message_item, item_of, items, holds}
use hey_proxy.Chat.Client.{Call}
use hey_proxy.Chat.Stream.Calls.{Agrees}
use hey_proxy.Chat.Stream.Keeps.{
  Tools, Keeps, and_then-Keeps, stay-Keeps, send-Keeps, cond-Keeps, bind-Keeps, text-Keeps,
  summary-Keeps,
}
use hey_proxy.Chat.Stream.Tells.{IsStable, tool-Keeps}

module _ (printed_len : Value → ℕ) (P : Tools → Type 0) where
  part-Keeps :
      (calls : List Call) (i content : ℕ) (kind : Option String) (v : Value) (s : State)
      → Agrees s.tools calls
      → P s.tools
      → Keeps P calls (part printed_len i content kind v s)
  unfolding part
  part-Keeps calls i content none v s a p = tt
  part-Keeps calls i content (some kind) v s a p =
      cond-Keeps P calls (str_eq kind "output_text") _ _
        (text-Keeps P calls s a p i content "content" _ true λ d c. refl)
        (cond-Keeps P calls (str_eq kind "refusal") _
          (err "Unsupported response content in chat stream")
          (text-Keeps P calls s a p i content "refusal" _ true λ d c. refl) tt)

  parts-Keeps :
      (calls : List Call) (i content : ℕ) (ps : List Value) (s : State)
      → Agrees s.tools calls
      → P s.tools
      → Keeps P calls (parts printed_len i content ps s)
  unfolding parts
  parts-Keeps calls i content [] s a p = stay-Keeps P calls s a p
  parts-Keeps calls i content (v ∷ vs) s a p =
      and_then-Keeps P P calls _ _ (part-Keeps calls i content (as_str (index v "type")) v s a p)
        λ t heard b q. parts-Keeps heard i (suc content) vs t b q

  carry-Keeps :
      (calls : List Call) (i : ℕ) (v : Value) (s : State)
      → Agrees s.tools calls
      → P s.tools
      → Keeps P calls (carry printed_len i v s)
  unfolding carry
  carry-Keeps calls i v s a p =
      cond-Keeps P calls
        (is_string (index v "encrypted_content") && not (holds printed_len i s.encrypted)) _
        (ok (s, [])) (send-Keeps P calls calls _ _ _ refl a p) (stay-Keeps P calls s a p)

  reasoning-Keeps :
      (calls : List Call) (i : ℕ) (v : Value) (s : State)
      → Agrees s.tools calls
      → P s.tools
      → Keeps P calls (reasoning printed_len i v s)
  unfolding reasoning
  reasoning-Keeps calls i v s a p =
      and_then-Keeps P P calls _ _ (summary-Keeps P calls s a p i false (index v "id") _ true)
        λ t heard b q.
          and_then-Keeps P P heard _ _ (summary-Keeps P heard t b q i true (index v "id") _ true)
            λ u heard' c r. carry-Keeps heard' i v u c r

  message_item-Keeps :
      (calls : List Call) (i : ℕ) (v : Value) (full : Bool) (s : State)
      → Agrees s.tools calls
      → P s.tools
      → Keeps P calls (message_item printed_len i v full s)
  message_item-Keeps calls i v full s a p =
      cond-Keeps P calls full _ (ok (s, []))
        (bind-Keeps P calls (or_err (as_array (index v "content")) "Message lacks content")
          (λ ps. parts printed_len i 0 ps s) λ ps e. parts-Keeps calls i 0 ps s a p)
        (stay-Keeps P calls s a p)

  pub item_of-Keeps :
      (calls : List Call) (kind : Option String) (i : ℕ) (v : Value) (full : Bool) (s : State)
      → Agrees s.tools calls
      → IsStable P i
      → P s.tools
      → Keeps P calls (item_of printed_len kind i v full s)
  unfolding item_of
  item_of-Keeps calls none i v full s a stable p = tt
  item_of-Keeps calls (some kind) i v full s a stable p =
      cond-Keeps P calls (str_eq kind "function_call") _ _
        (tool-Keeps printed_len P calls i v s full a stable p)
        (cond-Keeps P calls (str_eq kind "message") _ _ (message_item-Keeps calls i v full s a p) (
          cond-Keeps P calls (str_eq kind "reasoning") _
            (err "Unsupported response output in chat stream")
            (cond-Keeps P calls (full && not s.exclude_reasoning) _ (ok (s, []))
              (reasoning-Keeps calls i v s a p) (stay-Keeps P calls s a p))
            tt))

  pub items-Keeps :
      (calls : List Call) (i : ℕ) (vs : List Value) (s : State)
      → Agrees s.tools calls
      → ((k : ℕ) → i ≤ k → IsStable P k)
      → P s.tools
      → Keeps P calls (items printed_len i vs s)
  unfolding items
  items-Keeps calls i [] s a stable p = stay-Keeps P calls s a p
  items-Keeps calls i (v ∷ vs) s a stable p =
      and_then-Keeps P P calls _ _
        (item_of-Keeps calls (as_str (index v "type")) i v true s a (stable i (omega arith)) p)
        λ t heard b q. items-Keeps heard (suc i) vs t b (λ k h. stable k (omega (arith, h))) q
