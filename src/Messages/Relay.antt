-- ===== src/Messages/Relay.antt =====
-- The loop by which both stream converters of src/proxy/messages pass on what they read: `adapt` in
-- stream.rs, and the body of the response in gemini.rs.
pub mod Complete
use hey_proxy.Base.{ℕ, String, true, false, Option, List, [], ◌∷◌, ◌++◌, ok, err}
use hey_proxy.Json.{Value, string}
use hey_proxy.Json.Build.{obj}
use hey_proxy.Messages.Response.{Fallible, error_value}
use hey_proxy.Sse
use hey_proxy.Sse.{SseDecoder}

-- `failure`: the error as an event
abbrev pub failure : String → Value
failure message = error_value 502 message

abbrev pub ping : Value
ping = obj (("type", string "ping") ∷ [])

-- What the loop of `adapt` reads: bytes, a broken connection, or a tick of the heartbeat. The end of
-- the list is the end of the upstream's stream.
pub data Read : Type 0 where
  bytes : List ℕ → Read
  broken heartbeat : Read

abbrev pub ended : {S : Type 0} → Fallible (S × List Value) → List Value
ended (ok (s, es)) = es
ended (err e) = failure e ∷ []

-- `event` translates a chunk, `finish` ends the stream, and the texts are those of the two failures.
module _ {S : Type 0} (event : Value → S → Fallible (S × List Value))
    (finish : S → Fallible (S × List Value)) (disconnected oversized : String)
    (from_slice : List ℕ → Option Value) where
  unfoldable pub pass_on : List Value → S → (S → List Value) → List Value
  pass_on [] s rest = rest s
  pass_on (chunk ∷ chunks) s rest = elim (event chunk s) [
    | ok (t, es) ↦ es ++ pass_on chunks t rest
    | err e ↦ failure e ∷ []
  ]

  abbrev pub decoded : Sse.Decoded → S → (SseDecoder → S → List Value) → List Value
  decoded (ok (d, chunks)) s rest = pass_on chunks s (rest d)
  decoded (err e) s rest = failure oversized ∷ []

  unfoldable pub relay : List Read → SseDecoder → S → List Value
  unfolding pass_on
  relay [] d s = decoded (Sse.feed from_slice d [] true) s (λ _ t. ended (finish t))
  relay (bytes bs ∷ reads) d s = decoded (Sse.feed from_slice d bs false) s (relay reads)
  relay (broken ∷ reads) d s = failure disconnected ∷ []
  relay (heartbeat ∷ reads) d s = ping ∷ relay reads d s
