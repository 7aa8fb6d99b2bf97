-- ===== src/Messages/Stream/Tracks.antt =====
-- The invariant of the converter: the client has seen as many blocks as it has started, and the
-- blocks that it will write to are of their kinds.
use hey_proxy.Base.{
  ℕ, suc, String, Bool, true, Option, none, some, List, [], ◌∷◌, ◌++◌, ◌≡◌, refl, arith, length,
  length-append, get_elem?, get_elem?-append, get_elem?-append_length, All, ok,
}
use hey_proxy.Base.Maps.{Entry, insert, All-insert}
use hey_proxy.Messages.Protocol.{Kind, Client, follow_all}
use hey_proxy.Messages.Stream.{State, Step}
use hey_proxy.Messages.Follows.{IsAccepted, IsOpen, with_kind, with_kind-IsOpen}

abbrev pub IsAt : List Kind → Option ℕ → Kind → Type 0
IsAt kinds none k = Unit {0}
IsAt kinds (some i) k = get_elem? kinds i ≡ some k

abbrev pub IsTool : List Kind → Entry (ℕ × String) → Type 0
IsTool kinds (key, (i, args)) = get_elem? kinds i ≡ some Kind.tool_use

pub record Tracks (started : Bool) (blocks : ℕ) (text thinking : Option ℕ)
    (tools : List (Entry (ℕ × String))) (c : Client) : Type 0 where
  pub live : started ≡ true
  pub is_open : IsOpen c
  pub counted : blocks ≡ length c.kinds
  pub text_at : IsAt c.kinds text Kind.text
  pub thinking_at : IsAt c.kinds thinking Kind.thinking
  pub tools_at : All (IsTool c.kinds) tools

-- The other fields of the state play no part.
abbrev pub IsTracked : State → Client → Type 0
IsTracked s c = Tracks s.started s.blocks s.text s.thinking s.tools c

-- The client can follow a step, and is then in step with the new state.
abbrev pub IsFollowed : Client → Step → Type 0
IsFollowed = IsAccepted IsTracked

pub nothing-IsFollowed : (c : Client) (s : State) → IsTracked s c → IsFollowed c (ok (s, []))
unfolding follow_all
nothing-IsFollowed c s t = (c, refl, t)

pub IsAt-append :
    (kinds : List Kind) (k k' : Kind) (o : Option ℕ) → IsAt kinds o k → IsAt (kinds ++ k' ∷ []) o k
IsAt-append kinds k k' none h = tt
IsAt-append kinds k k' (some i) h = get_elem?-append kinds (k' ∷ []) i h

pub IsTool-append :
    (kinds : List Kind) (k : Kind) (tools : List (Entry (ℕ × String)))
    → All (IsTool kinds) tools
    → All (IsTool (kinds ++ k ∷ [])) tools
IsTool-append kinds k [] h = tt
IsTool-append kinds k ((key, (i, args)) ∷ tools) h =
    (get_elem?-append kinds (k ∷ []) i h.0, IsTool-append kinds k tools h.1)

module _ {started : Bool} {blocks : ℕ} {text thinking : Option ℕ}
    {tools : List (Entry (ℕ × String))} {c : Client} (k : Kind)
    (t : Tracks started blocks text thinking tools c) where
  pub Tracks-block : Tracks started (suc blocks) text thinking tools (with_kind c k)
  Tracks-block = record {
    live = t.live;
    is_open = with_kind-IsOpen c k t.is_open;
    counted = omega (arith, t.counted, length-append c.kinds (k ∷ []));
    text_at = IsAt-append c.kinds Kind.text k text t.text_at;
    thinking_at = IsAt-append c.kinds Kind.thinking k thinking t.thinking_at;
    tools_at = IsTool-append c.kinds k tools t.tools_at;
  }

  -- The new block is the one that the old number names.
  pub block_at : get_elem? (c.kinds ++ k ∷ []) blocks ≡ some k
  block_at = rw t.counted (get_elem?-append_length c.kinds k)

module _ {started : Bool} {blocks : ℕ} {text thinking : Option ℕ}
    {tools : List (Entry (ℕ × String))} {c : Client}
    (t : Tracks started blocks text thinking tools c) where
  pub Tracks-text :
      (i : ℕ)
      → get_elem? c.kinds i ≡ some Kind.text
      → Tracks started blocks (some i) thinking tools c
  Tracks-text i h = record {
    live = t.live;
    is_open = t.is_open;
    counted = t.counted;
    text_at = h;
    thinking_at = t.thinking_at;
    tools_at = t.tools_at;
  }

  pub Tracks-thinking :
      (i : ℕ)
      → get_elem? c.kinds i ≡ some Kind.thinking
      → Tracks started blocks text (some i) tools c
  Tracks-thinking i h = record {
    live = t.live;
    is_open = t.is_open;
    counted = t.counted;
    text_at = t.text_at;
    thinking_at = h;
    tools_at = t.tools_at;
  }

  -- One entry for a block of a call is added or changed.
  pub Tracks-insert :
      (key i : ℕ) (args : String)
      → get_elem? c.kinds i ≡ some Kind.tool_use
      → Tracks started blocks text thinking (insert key (i, args) tools) c
  Tracks-insert key i args h = record {
    live = t.live;
    is_open = t.is_open;
    counted = t.counted;
    text_at = t.text_at;
    thinking_at = t.thinking_at;
    tools_at = All-insert (IsTool c.kinds) key (i, args) tools h t.tools_at;
  }
