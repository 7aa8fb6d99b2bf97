-- ===== src/Messages/Stream/Complete.antt =====
-- Whatever a stream of chunks consists of, its translation follows the client's protocol.
use mathlib.Core.Path.{subst}
use hey_proxy.Base.{
  ℕ, String, true, false, inl, inr, ◌⊎◌, Option, none, some, List, [], ◌≡◌, refl, sym, ap, ok, err,
  if◌then◌else◌,
}
use hey_proxy.Json.{Value}
use hey_proxy.Json.Access.{index, as_str}
use hey_proxy.Json.Build.{each, at, filled}
use hey_proxy.Messages.Codec.{Codec}
use hey_proxy.Messages.Protocol.{Client, new_client, follow, follow_all, IsComplete}
use hey_proxy.Messages.Stream.{
  State, Step, fresh, no_error, begin, note, begin_as, think, say, event, end,
}
use hey_proxy.Messages.Stream.Tracks.{IsTracked, IsFollowed, nothing-IsFollowed}
use hey_proxy.Messages.Stream.Steps.{think-IsFollowed, say-IsFollowed, call_tools-IsFollowed}
use hey_proxy.Messages.Stream.Ends.{end-IsComplete, end-fresh-IsComplete}
use hey_proxy.Messages.Stream.Quiet.{note-Keeps, quiet-IsFollowed}
use hey_proxy.Messages.Stream.{adapt}
use hey_proxy.Messages.Relay.{Read, ended}
use hey_proxy.Messages.Relay.Complete.{relay-IsComplete}
use hey_proxy.Messages.Follows.{IsAccepted, and_then-IsAccepted, then-IsAccepted}
use hey_proxy.Sse
use hey_proxy.Sse.{SseDecoder}

-- The state that the client is in step with: that of a stream under way, or the initial one.
abbrev IsReady : State → Client → Type 0
IsReady s c = IsTracked s c ⊎ ((s ≡ fresh) × (c ≡ new_client))

begin_as-IsFollowed :
    (id : Option String) (model : String) → IsFollowed new_client (begin_as id model fresh)
unfolding begin_as follow_all follow
begin_as-IsFollowed none model = tt
begin_as-IsFollowed (some id) model = (
  record new_client { begun = true },
  refl,
  record {
    live = refl;
    is_open = record { begun = refl; none_stopped = refl; untold = refl; running = refl };
    counted = refl;
    text_at = tt;
    thinking_at = tt;
    tools_at = tt;
  },
)

begin-IsFollowed :
    (chunk : Value) (model : String) (s : State) (c : Client)
    → IsReady s c
    → IsFollowed c (begin chunk model s)
unfolding begin
begin-IsFollowed chunk model s c (inl t) =
    subst
      (λ b. IsFollowed c (if b then ok (s, []) else begin_as (as_str (index chunk "id")) model s))
      (sym t.live) (nothing-IsFollowed c s t)
begin-IsFollowed chunk model s c (inr (e, f)) =
    rw (e, f) (begin_as-IsFollowed (as_str (index chunk "id")) model)

module _ (codec : Codec) where
  event-IsFollowed :
      (chunk : Value) (model : String) (s : State) (c : Client)
      → IsReady s c
      → IsFollowed c (event codec chunk model s)
  unfolding event
  event-IsFollowed chunk model s c ready =
      let delta = index (at (index chunk "choices") 0) "delta" in
      then-IsAccepted IsTracked c (no_error chunk) _ (
        and_then-IsAccepted IsTracked IsTracked c (begin chunk model s) _
          (begin-IsFollowed chunk model s c ready)
          λ d1 s1 t1.
            and_then-IsAccepted IsTracked IsTracked d1 _ _
              (quiet-IsFollowed codec chunk d1 (note codec chunk s1)
                (note-Keeps codec chunk s1 d1 t1))
              λ d2 s2 t2.
                and_then-IsAccepted IsTracked IsTracked d2
                  (think (filled (as_str (index delta "reasoning"))) s2) _
                  (think-IsFollowed s2 d2 t2 (filled (as_str (index delta "reasoning"))))
                  λ d3 s3 t3.
                    and_then-IsAccepted IsTracked IsTracked d3
                      (say (filled (as_str (index delta "content"))) s3) _
                      (say-IsFollowed s3 d3 t3 (filled (as_str (index delta "content"))))
                      λ d4 s4 t4.
                        and_then-IsAccepted IsTracked IsTracked d4
                          (say (filled (as_str (index delta "refusal"))) s4) _
                          (say-IsFollowed s4 d4 t4 (filled (as_str (index delta "refusal"))))
                          λ d5 s5 t5.
                            call_tools-IsFollowed (each (index delta "tool_calls")) s5 d5 t5)

ended-IsComplete :
    (codec : Codec) (s : State) (c : Client) → IsReady s c → IsComplete c (ended (end codec s))
ended-IsComplete codec s c (inl t) = end-IsComplete codec s c t
ended-IsComplete codec s c (inr (e, f)) = rw (e, f) (end-fresh-IsComplete codec)

IsReady-running : (s : State) (c : Client) → IsReady s c → c.over ≡ false
IsReady-running s c (inl t) = t.is_open.running
IsReady-running s c (inr (e, f)) = ap (λ (d : Client). d.over) f

stays-IsReady : (c : Client) (m : Step) → IsFollowed c m → IsAccepted IsReady c m
stays-IsReady c (err e) f = tt
stays-IsReady c (ok (s, es)) f = (f.0, f.1, inl f.2)

-- Whatever arrives from the upstream, cut in whatever way, broken off or not, with heartbeats at
-- any time: a client that follows the protocol can follow every event that is sent, and the stream
-- ends with the stop of the message after all its blocks were stopped, or with an error.
pub adapt-IsComplete :
    (codec : Codec) (from_slice : List ℕ → Option Value) (model : String) (reads : List Read)
    → IsComplete new_client (adapt codec from_slice model reads Sse.fresh fresh)
unfolding adapt
adapt-IsComplete codec from_slice model reads =
    relay-IsComplete (λ chunk t. event codec chunk model t) (end codec)
      "Upstream stream disconnected" "Invalid or oversized SSE frame" from_slice IsReady
      IsReady-running
      (λ chunk s c ready.
        stays-IsReady c (event codec chunk model s) (event-IsFollowed codec chunk model s c ready))
      (ended-IsComplete codec) reads Sse.fresh fresh new_client (inr (refl, refl))
