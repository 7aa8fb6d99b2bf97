-- ===== src/Messages/Native/Complete.antt =====
-- Whatever a stream of native chunks consists of, its translation follows the client's protocol.
use mathlib.Core.Path.{subst}
use hey_proxy.Base.{
  ℕ, zero, suc, String, true, false, not, ◌||◌, Option, none, some, List, [], ◌∷◌, ◌≡◌, refl, sym,
  ap, ◌∙◌, arith, length, get_elem?, Bool-cases, inl, inr, ok, err, ◌>>=◌, ◌>>◌, ensure, any, leb,
  eq_iff,
}
use hey_proxy.Json.{Value, Fields, null, bool, number, string, array, object}
use hey_proxy.Json.Access.{index, pointer, is_text, as_str}
use hey_proxy.Json.Build.{list}
use hey_proxy.Messages.Protocol.{
  Kind, Client, new_client, follow_all, follow_all-append, IsComplete, block_kind,
}
use hey_proxy.Messages.Events.{block_start, block_delta}
use hey_proxy.Messages.Steps.{and_then}
use hey_proxy.Messages.Relay.{Read, ended}
use hey_proxy.Messages.Relay.Complete.{relay-IsComplete}
use hey_proxy.Messages.Follows.{
  IsAccepted, IsOpen, with_kind, followed_one, delta-followed, follow-block_start, Closes,
  bind-Closes, failure-IsComplete, append-IsComplete, stops-IsComplete,
}
use hey_proxy.Messages.Native.{
  Backend, NativeRequest, NativeStream, Step, new, block, with_usage, usage,
}
use hey_proxy.Messages.Native.Feed.{feed}
use hey_proxy.Messages.Native.End.{
  is_thinking, signature_delta, signatures, redacted, sign, close_all, used_fields, generated,
  calls, stop_reason, check_schema, visible, end_with, end_used, end_stream, forward_stream,
}
use hey_proxy.Messages.Native.Tracks.{
  IsTracked, IsFollowed, Tracks-block, AreOf, AreOf-length, signed-AreOf,
}
use hey_proxy.Partial.{pending}
use hey_proxy.Sse
use hey_proxy.Messages.Native.Ready.{IsReady, feed-IsFollowed}

stays-IsReady : (c : Client) (m : Step) → IsFollowed c m → IsAccepted IsReady c m
stays-IsReady c (err e) f = tt
stays-IsReady c (ok (s, es)) f = (f.0, f.1, inl f.2)

drop : {A : Type 0} → ℕ → List A → List A
drop zero xs = xs
drop (suc i) [] = []
drop (suc i) (x ∷ xs) = drop i xs

drop-cons :
    {A : Type 0} (i : ℕ) (xs ys : List A) (y : A)
    → drop i xs ≡ y ∷ ys
    → (get_elem? xs i ≡ some y) × (drop (suc i) xs ≡ ys)
unfolding drop
drop-cons zero [] ys y h = cc
drop-cons zero (x ∷ xs) ys y h = ground (arith, h)
drop-cons (suc i) [] ys y h = cc
drop-cons (suc i) (x ∷ xs) ys y h = drop-cons i xs ys y h

abbrev kind_named : Value → Option Kind
kind_named w = elim (as_str w) [ some name ↦ block_kind name | none ↦ none ]

text_kind : (w : Value) → is_text "thinking" w ≡ true → kind_named w ≡ some Kind.thinking
text_kind (string t) h =
    subst (λ n. block_kind n ≡ some Kind.thinking) (sym ((eq_iff t "thinking").0 h)) refl
text_kind null h = cc
text_kind (bool b) h = cc
text_kind (number n) h = cc
text_kind (array vs) h = cc
text_kind (object fs) h = cc

-- The signatures go to the blocks of thinking.
signatures-followed :
    (carrier : String) (bs : List Value) (ks : List Kind) (i : ℕ) (c : Client)
    → IsOpen c
    → AreOf bs ks
    → drop i c.kinds ≡ ks
    → follow_all c (signatures i carrier bs) ≡ some c
unfolding follow_all
signatures-followed carrier [] ks i c o h e = refl
signatures-followed carrier (b ∷ bs) [] i c o h e = absurd h
signatures-followed carrier (b ∷ bs) (k ∷ ks) i c o h e =
    let (at_i, next) = drop-cons i c.kinds ks k e in
    let rest = signatures-followed carrier bs ks (suc i) c o h.1 next in
    elim (Bool-cases (is_thinking b)) [
      | inr other ↦ rw other rest
      | inl is ↦
          let same : some k ≡ some Kind.thinking = sym h.0 ∙ text_kind (index b "type") is in
          rw is (
            follow_all-append c c (block_delta i (signature_delta carrier) ∷ [])
              (signatures (suc i) carrier bs)
              (delta-followed c o i (signature_delta carrier) Kind.thinking (at_i ∙ same) refl)
            ∙ rest)
    ]

sign-IsFollowed :
    (carrier : String) (s : NativeStream) (c : Client)
    → IsTracked s c
    → IsFollowed c (sign carrier s)
unfolding sign block drop
sign-IsFollowed carrier s c t = elim (Bool-cases (any is_thinking s.message.content)) [
  | inl some_ ↦ rw some_ (
    c,
    signatures-followed carrier s.message.content c.kinds 0 c t.is_open t.of_kinds refl,
    record {
      live = t.live;
      is_open = t.is_open;
      of_kinds = signed-AreOf carrier s.message.content c.kinds t.of_kinds;
      active_at = t.active_at;
    },
  )
  | inr none_ ↦
      let counted = AreOf-length s.message.content c.kinds t.of_kinds in
      rw none_ (
        with_kind c Kind.redacted,
        followed_one c (with_kind c Kind.redacted)
            (block_start (length s.message.content) (redacted carrier))
            (follow-block_start c (length s.message.content) t.is_open (redacted carrier)
              Kind.redacted counted refl),
        Tracks-block c (redacted carrier) Kind.redacted t refl,
      )
]

closed-IsComplete :
    (c : Client) (m : Step) (reason : String)
    → c.over ≡ false
    → IsFollowed c m
    → Closes c (and_then m (close_all reason))
closed-IsComplete c (err e) reason running f = failure-IsComplete c e running
closed-IsComplete c (ok (s, es)) reason running f = append-IsComplete c f.0 es _ f.1 (
    stops-IsComplete f.0 (length s.message.content) reason s.message.usage f.2.is_open
      (AreOf-length s.message.content f.0.kinds f.2.of_kinds))

module _ (backend : Backend) (request : NativeRequest) where
  feed-IsReady :
      (chunk : Value) (s : NativeStream) (c : Client)
      → IsReady s c
      → IsAccepted IsReady c (feed backend request chunk s)
  feed-IsReady chunk s c ready =
      stays-IsReady c (feed backend request chunk s)
        (feed-IsFollowed backend request chunk s c ready)

  end_with-IsComplete :
      (s : NativeStream) (c : Client) (reason : String)
      → IsTracked s c
      → Closes c (end_with backend request s reason)
  unfolding end_with
  end_with-IsComplete s c reason t =
      let running = t.is_open.running in
      bind-Closes c
        (check_schema backend request
          (pointer request.body ("generationConfig" ∷ "responseJsonSchema" ∷ [])) s)
        _ running
        λ _.
          bind-Closes c
            (backend.seal request.model (list s.native) (list (visible s.message.content))) _
            running
            λ carrier.
              closed-IsComplete c (sign carrier s) reason running (sign-IsFollowed carrier s c t)

  reasoned-IsComplete :
      (s : NativeStream) (c : Client)
      → IsReady s c
      → Closes c (stop_reason s.reason (calls s) >>= end_with backend request s)
  reasoned-IsComplete s c (inl t) =
      bind-Closes c (stop_reason s.reason (calls s)) (end_with backend request s) t.is_open.running
        (λ reason. end_with-IsComplete s c reason t)
  reasoned-IsComplete s c (inr i) =
      subst (λ r. Closes c (stop_reason r (calls s) >>= end_with backend request s))
        (sym i.no_reason)
        (unfold stop_reason in
          failure-IsComplete c "Gemini response ended without finishReason"
            (ap (λ (d : Client). d.over) i.is_new))

  IsReady-running : (s : NativeStream) (c : Client) → IsReady s c → c.over ≡ false
  IsReady-running s c (inl t) = t.is_open.running
  IsReady-running s c (inr i) = ap (λ (d : Client). d.over) i.is_new

  end_used-IsComplete :
      (acc : Fields) (s : NativeStream) (c : Client)
      → IsReady s c
      → Closes c (end_used backend request acc s)
  unfolding end_used
  end_used-IsComplete acc s c ready =
      let running = IsReady-running s c ready in
      bind-Closes c (ensure (generated s acc) "Gemini response lacks generated token usage")
        (λ _.
          ensure (request.parallel || leb (calls s) 1) "Gemini violated disable_parallel_tool_use"
          >> (stop_reason s.reason (calls s) >>= end_with backend request s))
        running
        λ _.
          bind-Closes c
            (ensure (request.parallel || leb (calls s) 1)
              "Gemini violated disable_parallel_tool_use")
            (λ _. stop_reason s.reason (calls s) >>= end_with backend request s) running
            λ _. reasoned-IsComplete s c ready

  end_stream-IsComplete :
      (s : NativeStream) (c : Client)
      → IsReady s c
      → IsComplete c (ended (end_stream backend request s))
  unfolding end_stream
  end_stream-IsComplete s c ready =
      let running = IsReady-running s c ready in
      bind-Closes c
        (ensure (not (pending s.partial)) "Gemini stream ended with incomplete function arguments")
        (λ _. used_fields s.usage >>= λ acc.
          usage (object acc) >>= λ used. end_used backend request acc (with_usage used s))
        running
        λ _.
          bind-Closes c (used_fields s.usage)
            (λ acc. usage (object acc) >>= λ used. end_used backend request acc (with_usage used s))
            running
            λ acc.
              bind-Closes c (usage (object acc))
                (λ used. end_used backend request acc (with_usage used s)) running
                λ used. end_used-IsComplete acc (with_usage used s) c ready

  -- Whatever arrives from Gemini, cut in whatever way, broken off or not, with heartbeats at any time:
  -- a client that follows the event protocol of Messages can follow every event that is sent, and the
  -- stream ends with the stop of the message after all its blocks were stopped, or with an error.
  pub forward_stream-IsComplete :
      (from_slice : List ℕ → Option Value) (id model : String) (reads : List Read)
      → IsComplete new_client
          (forward_stream backend request from_slice reads Sse.fresh (new id model))
  unfolding forward_stream
  forward_stream-IsComplete from_slice id model reads =
      relay-IsComplete (feed backend request) (end_stream backend request)
        "Native Gemini stream disconnected" "Invalid or oversized native Gemini SSE" from_slice
        IsReady IsReady-running feed-IsReady end_stream-IsComplete reads Sse.fresh (new id model)
        new_client
        (inr (record {
          unstarted = refl;
          no_content = refl;
          none_active = refl;
          no_reason = refl;
          is_new = refl;
        }))
