-- ===== src/Chat/Stream/Tells.antt =====
-- What the client of a chat stream is told of the calls.
use hey_proxy.Base.{
  ℕ, String, Bool, true, false, ◌&&◌, Option, none, some, List, [], ◌∷◌, ◌++◌, ◌≡◌, refl, sym, ap,
  ◌∙◌, if◌then◌else◌, ◌==◌, ==_iff, length, Bool-cases, inl, inr, ok, ensure,
}
use hey_proxy.Base.Text.{join}
use hey_proxy.Base.Maps.{put_key, find_key-put_key, find_key-put_key_other}
use hey_proxy.Json.{Value}
use hey_proxy.Json.Access.{index, as_str}
use hey_proxy.Json.Build.{is_blank_text, join_blank, is_string, unwrap_or}
use hey_proxy.Chat.Deltas.{
  State, Tool, send, unsent, send_arguments, arguments_of, arguments, tool_delta,
}
use hey_proxy.Chat.Stream.{open_tool, tool}
use hey_proxy.Chat.Client.{Call, change_call, continued}
use hey_proxy.Chat.Stream.Calls.{Agrees, find_tool, call_of, Agrees-open, Agrees-continue}
use hey_proxy.Chat.Stream.Keeps.{
  Tools, Keeps, and_then-Keeps, stay-Keeps, send-Keeps, cond-Keeps, bind-Keeps, then-Keeps,
  join_of_unsent,
}

-- A property that putting a call at the key keeps.
abbrev pub IsStable : (Tools → Type 0) → ℕ → Type 0
IsStable P key = (t : Tool) (tools : Tools) → P tools → P (put_key ◌==◌ key t tools)

-- The arguments of the call are complete.
abbrev pub Done : ℕ → String → Tools → Type 0
Done key args tools = (n : ℕ) × (item : Value) × (find_tool key tools ≡ some (n, item, args))

pub Done-IsStable :
    (key other : ℕ) (args : String) → (other == key) ≡ false → IsStable (Done key args) other
Done-IsStable key other args ne t tools (n, item, h) =
    (n, item, find_key-put_key_other other t key tools ne ∙ h)

module _ (P : Tools → Type 0) (calls : List Call) (s : State) (a : Agrees s.tools calls)
    (key : ℕ) where
  send_arguments-Keeps :
      (n : ℕ) (item : Value) (args delta : String)
      → find_tool key s.tools ≡ some (n, item, args)
      → P (put_key ◌==◌ key (n, item, join args delta) s.tools)
      → (join args delta ≡ args → P s.tools)
      → Keeps P calls (send_arguments key (n, item, args) delta s)
  send_arguments-Keeps n item args delta found q same = elim (Bool-cases (is_blank_text delta)) [
    | inl e ↦ rw e (stay-Keeps P calls s a (same (join_blank args delta e)))
    | inr e ↦ rw e (
        send-Keeps P calls (change_call n (continued delta) calls) _ _ _ refl
          (Agrees-continue s.tools calls a key n item args delta found) q)
  ]

  arguments_of-Keeps :
      (entry : Option Tool) (args : String) (full : Bool)
      → find_tool key s.tools ≡ entry
      → IsStable P key
      → P s.tools
      → Keeps P calls (arguments_of entry key args full s)
  unfolding arguments_of
  arguments_of-Keeps none args full e stable p = tt
  arguments_of-Keeps (some (n, item, previous)) args full e stable p =
      bind-Keeps P calls
        (unsent full previous args "Function arguments changed after being streamed")
        (λ delta. send_arguments key (n, item, previous) delta s)
        λ delta h.
          send_arguments-Keeps n item previous delta e
            (stable (n, item, join previous delta) s.tools p) (λ same. p)

  pub arguments-Keeps :
      (args : String) (full : Bool)
      → IsStable P key
      → P s.tools
      → Keeps P calls (arguments key args full s)
  unfolding arguments
  arguments-Keeps args full stable p =
      arguments_of-Keeps (find_tool key s.tools) args full refl stable p

module _ (calls : List Call) (s : State) (a : Agrees s.tools calls) (key : ℕ) (args : String) where
  arguments_of-Done :
      (entry : Option Tool)
      → find_tool key s.tools ≡ entry
      → Keeps (Done key args) calls (arguments_of entry key args true s)
  unfolding arguments_of
  arguments_of-Done none e = tt
  arguments_of-Done (some (n, item, previous)) e =
      bind-Keeps (Done key args) calls
        (unsent true previous args "Function arguments changed after being streamed")
        (λ delta. send_arguments key (n, item, previous) delta s)
        λ delta h.
          let whole : join previous delta ≡ args =
            join_of_unsent previous args "Function arguments changed after being streamed" delta
              h in
          send_arguments-Keeps (Done key args) calls s a key n item previous delta e
            (
              n,
              item,
              find_key-put_key key (n, item, join previous delta) s.tools
                  ∙ ap (λ t. some (n, item, t)) whole,
            )
            λ same. (n, item, e ∙ ap (λ t. some (n, item, t)) (sym same ∙ whole))

  -- Where the whole arguments are given, the call has them afterwards.
  pub arguments-Done : Keeps (Done key args) calls (arguments key args true s)
  unfolding arguments
  arguments-Done = arguments_of-Done (find_tool key s.tools) refl

module _ (printed_len : Value → ℕ) (P : Tools → Type 0) (calls : List Call) (key : ℕ)
    (item : Value) where
  open_tool-Keeps :
      (s : State) (entry : Option Tool)
      → find_tool key s.tools ≡ entry
      → Agrees s.tools calls
      → IsStable P key
      → P s.tools
      → Keeps P calls (open_tool printed_len entry key item s)
  unfolding open_tool
  open_tool-Keeps s (some t) e a stable p = stay-Keeps P calls s a p
  open_tool-Keeps s none e a stable p =
      let first : Tool = (length s.tools, item, "") in
      let opened = calls ++ call_of first ∷ [] in
      let next : State = record s { tools = put_key ◌==◌ key first s.tools } in
      let at_end : (length s.tools == length calls) ≡ true =
        (==_iff (length s.tools) (length calls)).1 (sym a.counted) in
      then-Keeps P calls
        (ensure (is_string (index item "call_id") && is_string (index item "name"))
          "Function call lacks identity")
        (send (printed_len item) (tool_delta (length s.tools) item) next)
        (send-Keeps P calls opened (printed_len item) (tool_delta (length s.tools) item) next
          (ap (λ b. if b then opened else calls) at_end) (Agrees-open s.tools calls a key item e)
          (stable first s.tools p))

  pub tool-Keeps :
      (s : State) (full : Bool)
      → Agrees s.tools calls
      → IsStable P key
      → P s.tools
      → Keeps P calls (tool printed_len key item full s)
  unfolding tool
  tool-Keeps s full a stable p =
      and_then-Keeps P P calls _ _ (open_tool-Keeps s (find_tool key s.tools) refl a stable p)
        λ t heard b q.
          cond-Keeps P heard full _ (ok (t, []))
            (arguments-Keeps P heard t b key (unwrap_or (as_str (index item "arguments")) "") true
              stable q)
            (stay-Keeps P heard t b q)

module _ (printed_len : Value → ℕ) (calls : List Call) (key : ℕ) (item : Value) where
  -- A call that is whole has its arguments afterwards.
  pub tool-Done :
      (s : State)
      → Agrees s.tools calls
      → Keeps
          (Done key (unwrap_or (as_str (index item "arguments")) ""))
          calls
          (tool printed_len key item true s)
  unfolding tool
  tool-Done s a =
      let args = unwrap_or (as_str (index item "arguments")) "" in
      and_then-Keeps (λ tools. Unit {0}) (Done key args) calls _ _
        (open_tool-Keeps printed_len (λ tools. Unit {0}) calls key item s (find_tool key s.tools)
          refl a (λ t tools p. tt) tt)
        λ t heard b q. arguments-Done heard t b key args
