-- ===== src/Messages/Native/Ready.antt =====
-- A chunk is followed by the client, from the first one on.
use mathlib.Core.Path.{subst}
use hey_proxy.Base.{
  String, true, not, Option, none, some, [], ◌∷◌, ◌⊎◌, refl, sym, if◌then◌else◌, Bool-cases, inl,
  inr, ok, err, ◌>>=◌, ensure, leb,
}
use hey_proxy.Json.{Value, Fields, null, bool, number, string, array, object, end}
use hey_proxy.Json.Access.{get, index, as_u64, pointer}
use hey_proxy.Json.Build.{is_some, is_blank_text, unwrap_or}
use hey_proxy.Messages.Protocol.{Client, new_client, follow, follow_all}
use hey_proxy.Messages.Response.{Fallible}
use hey_proxy.Messages.Follows.{and_then-IsAccepted, then-IsAccepted}
use hey_proxy.Messages.Native.{
  Backend, NativeRequest, NativeStream, Step, take_usage, accumulate, extend, usage, begin,
  message_start, take_block_reason, text_of,
}
use hey_proxy.Messages.Native.Feed.{count_bytes, take_candidates, feed}
use hey_proxy.Messages.Native.Tracks.{IsTracked, IsFollowed, IsActive, Idle, AreOf}
use hey_proxy.Messages.Native.Steps.{nothing-IsFollowed, take_candidates-IsFollowed}
use hey_proxy.Messages.Stream.{limit, saturating_add}

-- The state that the client is in step with: that of a stream under way, or the initial one.
abbrev pub IsReady : NativeStream → Client → Type 0
IsReady s c = IsTracked s c ⊎ Idle s.started s.message.content s.active s.reason c

-- A change of the state that the client does not see.
abbrev Keeps : Client → Fallible NativeStream → Type 0
Keeps c (err e) = Unit {0}
Keeps c (ok s) = IsReady s c

bind-Keeps :
    {A : Type 0} (c : Client) (m : Fallible A) (k : A → Fallible NativeStream)
    → ((a : A) → Keeps c (k a))
    → Keeps c (m >>= k)
bind-Keeps c (err e) k g = tt
bind-Keeps c (ok a) k g = g a

accumulate-Keeps :
    (acc : Fields) (s : NativeStream) (c : Client) → IsReady s c → Keeps c (accumulate acc s)
unfolding accumulate
accumulate-Keeps acc s c ready =
    elim (Bool-cases (is_some (as_u64 (index (object acc) "promptTokenCount")))) [
      | inl e ↦ rw e (bind-Keeps c (usage (object acc)) _ (λ used. ready))
      | inr e ↦ rw e ready
    ]

take_usage-Keeps :
    (v : Option Value) (s : NativeStream) (c : Client) → IsReady s c → Keeps c (take_usage v s)
unfolding take_usage
take_usage-Keeps none s c ready = ready
take_usage-Keeps (some (object fs)) s c ready =
    accumulate-Keeps (extend (unwrap_or s.usage end) fs) s c ready
take_usage-Keeps (some null) s c ready = tt
take_usage-Keeps (some (bool b)) s c ready = tt
take_usage-Keeps (some (number n)) s c ready = tt
take_usage-Keeps (some (string t)) s c ready = tt
take_usage-Keeps (some (array vs)) s c ready = tt

module _ (backend : Backend) (request : NativeRequest) where
  count_bytes-Keeps :
      (chunk : Value) (s : NativeStream) (c : Client)
      → IsReady s c
      → Keeps c (count_bytes backend request chunk s)
  unfolding count_bytes
  count_bytes-Keeps chunk s c ready =
      let total = saturating_add s.bytes (backend.printed_len chunk) in
      bind-Keeps c (ensure (leb total limit) "Gemini response exceeds 64 MiB")
        (λ _. ok (record s { bytes = total })) (λ _. ready)

-- The first chunk: the message starts.
start-IsFollowed :
    (s : NativeStream) (c : Client)
    → Idle s.started s.message.content s.active s.reason c
    → IsFollowed new_client (ok (record s { started = true }, message_start s ∷ []))
unfolding follow_all follow
start-IsFollowed s c i = (
  record new_client { begun = true },
  refl,
  record {
    live = refl;
    is_open = record { begun = refl; none_stopped = refl; untold = refl; running = refl };
    of_kinds = subst (λ bs. AreOf bs []) (sym i.no_content) tt;
    active_at = subst (IsActive []) (sym i.none_active) tt;
  },
)

begin-IsFollowed : (s : NativeStream) (c : Client) → IsReady s c → IsFollowed c (begin s)
unfolding begin
begin-IsFollowed s c (inl t) =
    subst
      (λ b.
        IsFollowed c
          (if b then ok (s, []) else ok (record s { started = true }, message_start s ∷ [])))
      (sym t.live) (nothing-IsFollowed c s t)
begin-IsFollowed s c (inr i) =
    subst
      (λ b.
        IsFollowed c
          (if b then ok (s, []) else ok (record s { started = true }, message_start s ∷ [])))
      (sym i.unstarted)
      (subst (λ d. IsFollowed d (ok (record s { started = true }, message_start s ∷ [])))
        (sym i.is_new) (start-IsFollowed s c i))

-- What is ready and acceptable: a kept state before a step.
kept-IsAccepted :
    (c : Client) (m : Fallible NativeStream) (k : NativeStream → Step)
    → Keeps c m
    → ((s : NativeStream) → IsReady s c → IsFollowed c (k s))
    → IsFollowed c (m >>= k)
kept-IsAccepted c (ok s) k h g = g s h
kept-IsAccepted c (err e) k h g = tt

-- The block reason changes no block.
reasoned-IsAccepted :
    (blocked : Option String) (s : NativeStream) (c : Client) (k : NativeStream → Step)
    → IsTracked s c
    → ((u : NativeStream) → IsTracked u c → IsFollowed c (k u))
    → IsFollowed c (take_block_reason blocked s >>= k)
unfolding take_block_reason
reasoned-IsAccepted none s c k t g = g s t
reasoned-IsAccepted (some blocked) s c k t g = elim (Bool-cases (is_blank_text blocked)) [
  | inl e ↦ rw e tt
  | inr e ↦ rw e (g (record s { reason = some "SAFETY" }) t)
]

module _ (backend : Backend) (request : NativeRequest) where
  pub feed-IsFollowed :
      (chunk : Value) (s : NativeStream) (c : Client)
      → IsReady s c
      → IsFollowed c (feed backend request chunk s)
  unfolding feed
  feed-IsFollowed chunk s c ready =
      kept-IsAccepted c (count_bytes backend request chunk s) _
        (count_bytes-Keeps backend request chunk s c ready)
        λ u kept.
          then-IsAccepted IsTracked c
            (ensure (not (is_some (get chunk "error"))) "Gemini stream returned an error") _
            (kept-IsAccepted c (take_usage (get chunk "usageMetadata") u) _
              (take_usage-Keeps (get chunk "usageMetadata") u c kept)
              λ v used.
                and_then-IsAccepted IsTracked IsTracked c (begin v) _ (begin-IsFollowed v c used)
                  λ d w t.
                    reasoned-IsAccepted
                      (text_of (pointer chunk ("promptFeedback" ∷ "blockReason" ∷ []))) w d
                      (take_candidates backend request (get chunk "candidates")) t
                      (λ x y.
                        take_candidates-IsFollowed backend request (get chunk "candidates") x d y))
