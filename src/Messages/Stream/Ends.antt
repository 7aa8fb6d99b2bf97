-- ===== src/Messages/Stream/Ends.antt =====
-- The end of a stream: all blocks are stopped in order, and the reason and the end are told.
use mathlib.Core.Path.{subst}
use hey_proxy.Base.{
  ℕ, String, false, inl, inr, Option, none, some, List, ◌++◌, ◌≡◌, refl, ok, err, Bool-cases,
  ensure, all, is_empty, str_eq,
}
use hey_proxy.Base.Maps.{values}
use hey_proxy.Json.{Value}
use hey_proxy.Json.Build.{is_object, is_blank_text}
use hey_proxy.Messages.Codec.{Codec}
use hey_proxy.Messages.Response.{
  Fallible, thinking, thinking_block, reasoning_text, error_value, or_err,
}
use hey_proxy.Messages.Protocol.{Kind, Client, new_client, IsComplete, typed, block_kind}
use hey_proxy.Messages.Stream.{
  State, Step, fresh, block, sign_as, sign, signature_delta, close_all, is_complete, end,
}
use hey_proxy.Messages.Stream.Tracks.{
  Tracks, IsTracked, IsFollowed, Tracks-block, nothing-IsFollowed,
}
use hey_proxy.Messages.Events.{block_stops, closing}
use hey_proxy.Messages.Relay.{ended}
use hey_proxy.Messages.Steps.{and_then}
use hey_proxy.Messages.Response
use hey_proxy.Messages.Follows.{
  with_kind, Closes, bind-Closes, failure-IsComplete, append-IsComplete, stops-IsComplete,
}
use hey_proxy.Messages.Stream.Steps.{delta_followed, start_followed}

followed-Closes :
    (c : Client) (m : Step) (reason : String)
    → c.over ≡ false
    → IsFollowed c m
    → Closes c (and_then m (close_all reason))
followed-Closes c (err e) reason running f = failure-IsComplete c e running
followed-Closes c (ok (s, es)) reason running f =
    append-IsComplete c f.0 es (block_stops 0 s.blocks ++ closing reason (Response.usage s.usage))
      f.1 (stops-IsComplete f.0 s.blocks reason (Response.usage s.usage) f.2.is_open f.2.counted)

module _ (codec : Codec) where
  -- A block of reasoning is of a kind that the client knows.
  thinking_kind :
      (ds : List Value) → (k : Kind) × (typed block_kind (thinking_block codec ds) ≡ some k)
  unfolding thinking_block
  thinking_kind ds = elim (Bool-cases (is_blank_text (reasoning_text ds))) [
    | inl e ↦ (Kind.redacted, rw e refl)
    | inr e ↦ (Kind.thinking, rw e refl)
  ]

  sign_as-IsFollowed :
      (open_block : Option ℕ) (ds : List Value) (s : State) (c : Client)
      → IsTracked s c
      → s.thinking ≡ open_block
      → IsFollowed c (sign_as codec open_block (thinking codec ds) s)
  unfolding sign_as block
  sign_as-IsFollowed (some i) ds s c t e =
      let u = subst (λ th. Tracks s.started s.blocks s.text th s.tools c) e t in
      let signature = signature_delta codec (values s.details) in
      elim (Bool-cases (str_eq (reasoning_text (values s.details)) s.thinking_text)) [
        | inl same ↦ rw same (c, delta_followed c t i signature Kind.thinking u.thinking_at refl, t)
        | inr differs ↦ rw differs tt
      ]
  sign_as-IsFollowed none ds s c t e =
      unfold thinking in
      elim (Bool-cases (is_empty ds)) [
        | inl none_kept ↦ rw none_kept (nothing-IsFollowed c s t)
        | inr kept ↦
            let (k, of_k) = thinking_kind ds in
            rw kept
              (with_kind c k, start_followed c t (thinking_block codec ds) k of_k, Tracks-block k t)
      ]

  pub end-IsComplete : (s : State) (c : Client) → IsTracked s c → IsComplete c (ended (end codec s))
  unfolding end sign
  end-IsComplete s c t =
      let running = t.is_open.running in
      bind-Closes c (or_err s.finish "Stream ended without a finish reason") _ running λ reason.
        bind-Closes c (ensure (is_object s.usage) "Stream ended without usage") _ running λ _.
          bind-Closes c
            (ensure (all (is_complete codec) s.tools)
              "Upstream tool arguments are not a complete JSON object")
            (λ _. and_then (sign codec s) (close_all reason)) running
            λ _.
              followed-Closes c (sign codec s) reason running
                (sign_as-IsFollowed s.thinking (values s.details) s c t refl)

  -- A stream without a chunk has no finish reason.
  pub end-fresh-IsComplete : IsComplete new_client (ended (end codec fresh))
  unfolding end
  end-fresh-IsComplete = failure-IsComplete new_client "Stream ended without a finish reason" refl
