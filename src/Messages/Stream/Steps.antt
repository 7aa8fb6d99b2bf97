-- ===== src/Messages/Stream/Steps.antt =====
-- Each part of `event` is followed by the client.
use mathlib.Core.Path.{subst}
use hey_proxy.Base.Text.{join}
use hey_proxy.Base.{
  ℕ, String, Bool, inl, inr, Option, none, some, List, [], ◌∷◌, ◌≡◌, refl, get_elem?, Option-cases,
  Bool-cases,
}
use hey_proxy.Base.Maps.{Entry, lookup, All-lookup}
use hey_proxy.Json.{Value}
use hey_proxy.Json.Access.{index, as_u64, as_str}
use hey_proxy.Json.Build.{filled}
use hey_proxy.Messages.Protocol.{Kind, Client, follow_all, typed, block_kind, delta_kind}
use hey_proxy.Messages.Stream.{
  State, block, think, thinking_index, say, text_index, is_identified, open_unless, push_arguments,
  add_arguments, call_at, call_tool, call_tools, tool_start,
}
use hey_proxy.Messages.Events.{
  block_start, block_delta, thinking_start, thinking_delta, text_start, text_delta, input_delta,
}
use hey_proxy.Messages.Follows.{
  and_then-IsAccepted, with_kind, followed_one, follow-block_start, delta-followed, opened-followed,
}
use hey_proxy.Messages.Stream.Tracks.{
  IsTracked, IsFollowed, Tracks, Tracks-block, block_at, Tracks-text, Tracks-thinking,
  Tracks-insert, nothing-IsFollowed,
}

module _ {started : Bool} {blocks : ℕ} {text thinking : Option ℕ}
    {tools : List (Entry (ℕ × String))} (c : Client)
    (t : Tracks started blocks text thinking tools c) where
  pub delta_followed :
      (i : ℕ) (delta : Value) (k : Kind)
      → get_elem? c.kinds i ≡ some k
      → typed delta_kind delta ≡ some k
      → follow_all c (block_delta i delta ∷ []) ≡ some c
  delta_followed = delta-followed c t.is_open

  pub start_followed :
      (b : Value) (k : Kind)
      → typed block_kind b ≡ some k
      → follow_all c (block_start blocks b ∷ []) ≡ some (with_kind c k)
  start_followed b k of_k =
      followed_one c (with_kind c k) (block_start blocks b)
        (follow-block_start c blocks t.is_open b k t.counted of_k)

  opened_followed :
      (b delta : Value) (k : Kind)
      → typed block_kind b ≡ some k
      → typed delta_kind delta ≡ some k
      → follow_all c (block_start blocks b ∷ block_delta blocks delta ∷ []) ≡ some (with_kind c k)
  opened_followed b delta k = opened-followed c t.is_open blocks b delta k t.counted

module _ (s : State) (c : Client) (t : IsTracked s c) where
  pub think-IsFollowed : (text : Option String) → IsFollowed c (think text s)
  unfolding think thinking_index block
  think-IsFollowed none = nothing-IsFollowed c s t
  think-IsFollowed (some text) = elim (Option-cases s.thinking) [
    | inl e ↦
        let u = Tracks-block Kind.thinking t in
        rw e (
          with_kind c Kind.thinking,
          opened_followed c t thinking_start (thinking_delta text) Kind.thinking refl refl,
          Tracks-thinking u s.blocks (block_at Kind.thinking t),
        )
    | inr (i, e) ↦
        let u = subst (λ th. Tracks s.started s.blocks s.text th s.tools c) e t in
        rw e (c, delta_followed c u i (thinking_delta text) Kind.thinking u.thinking_at refl, u)
  ]

  pub say-IsFollowed : (text : Option String) → IsFollowed c (say text s)
  unfolding say text_index block
  say-IsFollowed none = nothing-IsFollowed c s t
  say-IsFollowed (some text) = elim (Option-cases s.text) [
    | inl e ↦
        let u = Tracks-block Kind.text t in
        rw e (
          with_kind c Kind.text,
          opened_followed c t text_start (text_delta text) Kind.text refl refl,
          Tracks-text u s.blocks (block_at Kind.text t),
        )
    | inr (i, e) ↦
        let u = subst (λ tx. Tracks s.started s.blocks tx s.thinking s.tools c) e t in
        rw e (c, delta_followed c u i (text_delta text) Kind.text u.text_at refl, u)
  ]

  open_unless-IsFollowed :
      (entry : Option (ℕ × String)) (key : ℕ) (call : Value)
      → IsFollowed c (open_unless entry key call s)
  unfolding open_unless block
  open_unless-IsFollowed (some entry) key call = nothing-IsFollowed c s t
  open_unless-IsFollowed none key call = elim (Bool-cases (is_identified call)) [
    | inr unidentified ↦ rw unidentified tt
    | inl identified ↦ rw identified (
      with_kind c Kind.tool_use,
      start_followed c t (tool_start call) Kind.tool_use refl,
      Tracks-insert (Tracks-block Kind.tool_use t) key s.blocks "" (block_at Kind.tool_use t),
    )
  ]

  push_arguments-IsFollowed :
      (entry : Option (ℕ × String)) (key : ℕ) (text : String)
      → lookup key s.tools ≡ entry
      → IsFollowed c (push_arguments entry key text s)
  unfolding push_arguments
  push_arguments-IsFollowed none key text e = nothing-IsFollowed c s t
  push_arguments-IsFollowed (some (i, args)) key text e =
      let at_i : get_elem? c.kinds i ≡ some Kind.tool_use =
        All-lookup (λ (v : ℕ × String). get_elem? c.kinds v.0 ≡ some Kind.tool_use) key s.tools
          (i, args) t.tools_at e in
      (
        c,
        delta_followed c t i (input_delta text) Kind.tool_use at_i refl,
        Tracks-insert t key i (join args text) at_i,
      )

  add_arguments-IsFollowed :
      (key : ℕ) (text : Option String) → IsFollowed c (add_arguments key text s)
  unfolding add_arguments
  add_arguments-IsFollowed key none = nothing-IsFollowed c s t
  add_arguments-IsFollowed key (some text) =
      push_arguments-IsFollowed (lookup key s.tools) key text refl

call_at-IsFollowed :
    (key : Option ℕ) (call : Value) (s : State) (c : Client)
    → IsTracked s c
    → IsFollowed c (call_at key call s)
unfolding call_at
call_at-IsFollowed none call s c t = tt
call_at-IsFollowed (some key) call s c t =
    let text = filled (as_str (index (index call "function") "arguments")) in
    and_then-IsAccepted IsTracked IsTracked c (open_unless (lookup key s.tools) key call s)
      (add_arguments key text) (open_unless-IsFollowed s c t (lookup key s.tools) key call)
      (λ d u v. add_arguments-IsFollowed u d v key text)

pub call_tools-IsFollowed :
    (calls : List Value) (s : State) (c : Client)
    → IsTracked s c
    → IsFollowed c (call_tools calls s)
unfolding call_tools call_tool
call_tools-IsFollowed [] s c t = nothing-IsFollowed c s t
call_tools-IsFollowed (call ∷ calls) s c t =
    and_then-IsAccepted IsTracked IsTracked c (call_tool call s) (call_tools calls)
      (call_at-IsFollowed (as_u64 (index call "index")) call s c t)
      (λ d u v. call_tools-IsFollowed calls u d v)
