-- ===== src/Messages/Relay/Complete.antt =====
-- The loop keeps to the client's protocol, if the translation of a chunk and the end do.
use hey_proxy.Base.{ℕ, String, true, false, Option, some, List, [], ◌∷◌, ◌++◌, ◌≡◌, refl, ok, err}
use hey_proxy.Json.{Value}
use hey_proxy.Messages.Response.{Fallible}
use hey_proxy.Messages.Protocol.{Client, follow, IsComplete}
use hey_proxy.Messages.Follows.{IsAccepted, followed_one, append-IsComplete, failure-IsComplete}
use hey_proxy.Messages.Relay.{
  Read, bytes, broken, heartbeat, failure, ping, ended, pass_on, decoded, relay,
}
use hey_proxy.Sse
use hey_proxy.Sse.{SseDecoder}

follow-ping : (c : Client) → c.over ≡ false → follow c ping ≡ some c
unfolding follow
follow-ping c running = rw running refl

module _ {S : Type 0} (event : Value → S → Fallible (S × List Value))
    (finish : S → Fallible (S × List Value)) (disconnected oversized : String)
    (from_slice : List ℕ → Option Value) (IsReady : S → Client → Type 0)
    (running : (s : S) (c : Client) → IsReady s c → c.over ≡ false)
    (accepted : (chunk : Value) (s : S) (c : Client)
      → IsReady s c
      → IsAccepted IsReady c (event chunk s))
    (finished : (s : S) (c : Client) → IsReady s c → IsComplete c (ended (finish s))) where
  -- What follows the chunks of a read: it completes the stream from any state.
  abbrev Completes : (S → List Value) → Type 0
  Completes rest = (s : S) (c : Client) → IsReady s c → IsComplete c (rest s)

  after_event :
      (m : Fallible (S × List Value)) (c : Client) (rest : S → List Value)
      → c.over ≡ false
      → IsAccepted IsReady c m
      → Completes rest
      → IsComplete c (elim m [ ok (t, es) ↦ es ++ rest t | err e ↦ failure e ∷ [] ])
  after_event (err e) c rest live f h = failure-IsComplete c e live
  after_event (ok (t, es)) c rest live f h = append-IsComplete c f.0 es (rest t) f.1 (h t f.0 f.2)

  pass_on-IsComplete :
      (chunks : List Value) (rest : S → List Value)
      → Completes rest
      → Completes (λ s. pass_on event finish disconnected oversized from_slice chunks s rest)
  unfolding pass_on
  pass_on-IsComplete [] rest h s c ready = h s c ready
  pass_on-IsComplete (chunk ∷ chunks) rest h s c ready =
      after_event (event chunk s) c
        (λ t. pass_on event finish disconnected oversized from_slice chunks t rest)
        (running s c ready) (accepted chunk s c ready) (pass_on-IsComplete chunks rest h)

  decoded-IsComplete :
      (m : Sse.Decoded) (rest : SseDecoder → S → List Value)
      → ((d : SseDecoder) → Completes (rest d))
      → Completes (λ s. decoded event finish disconnected oversized from_slice m s rest)
  decoded-IsComplete (err e) rest h s c ready = failure-IsComplete c oversized (running s c ready)
  decoded-IsComplete (ok (d, chunks)) rest h s c ready =
      pass_on-IsComplete chunks (rest d) (h d) s c ready

  pub relay-IsComplete :
      (reads : List Read) (d : SseDecoder)
      → Completes (relay event finish disconnected oversized from_slice reads d)
  unfolding relay
  relay-IsComplete [] d s c ready =
      decoded-IsComplete (Sse.feed from_slice d [] true) (λ _ t. ended (finish t)) (λ _. finished) s
        c ready
  relay-IsComplete (bytes bs ∷ reads) d s c ready =
      decoded-IsComplete (Sse.feed from_slice d bs false)
        (relay event finish disconnected oversized from_slice reads) (relay-IsComplete reads) s c
        ready
  relay-IsComplete (broken ∷ reads) d s c ready =
      failure-IsComplete c disconnected (running s c ready)
  relay-IsComplete (heartbeat ∷ reads) d s c ready =
      append-IsComplete c c (ping ∷ [])
        (relay event finish disconnected oversized from_slice reads d s)
        (followed_one c c ping (follow-ping c (running s c ready)))
        (relay-IsComplete reads d s c ready)
