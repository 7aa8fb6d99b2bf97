-- ===== src/Messages/Stream/Quiet.antt =====
-- The part of `event` that the client does not see: usage, finish reason, length and reasoning.
use hey_proxy.Base.{
  ℕ, String, Bool, true, false, inl, inr, Option, none, some, List, [], ◌∷◌, ok, err, ◌>>=◌,
  Bool-cases, leb, ensure,
}
use hey_proxy.Json.{Value}
use hey_proxy.Json.Access.{index, as_u64, as_str}
use hey_proxy.Json.Build.{is_object, each, at}
use hey_proxy.Messages.Codec.{Codec}
use hey_proxy.Messages.Response.{Fallible, stop}
use hey_proxy.Messages.Protocol.{Client}
use hey_proxy.Messages.Stream.{
  State, note, keep_usage, keep_finish, retain, saturating_add, limit, add_detail, add_details,
}
use hey_proxy.Messages.Stream.Tracks.{IsTracked, IsFollowed, nothing-IsFollowed}

-- A change of the state that the client does not see.
abbrev pub Keeps : Client → Fallible State → Type 0
Keeps c (err e) = Unit {0}
Keeps c (ok s) = IsTracked s c

bind-Keeps :
    (c : Client) (m : Fallible State) (k : State → Fallible State)
    → Keeps c m
    → ((s : State) → IsTracked s c → Keeps c (k s))
    → Keeps c (m >>= k)
bind-Keeps c (err e) k h g = tt
bind-Keeps c (ok s) k h g = g s h

keep_usage-IsTracked :
    (chunk : Value) (s : State) (c : Client) → IsTracked s c → IsTracked (keep_usage chunk s) c
unfolding keep_usage
keep_usage-IsTracked chunk s c t = elim (Bool-cases (is_object (index chunk "usage"))) [
  | inl e ↦ rw e t
  | inr e ↦ rw e t
]

told-Keeps :
    (c : Client) (s : State) (m : Fallible String)
    → IsTracked s c
    → Keeps c (m >>= λ told. ok (record s { finish = some told }))
told-Keeps c s (ok told) t = t
told-Keeps c s (err e) t = tt

keep_finish-Keeps :
    (reason : Option String) (s : State) (c : Client)
    → IsTracked s c
    → Keeps c (keep_finish reason s)
unfolding keep_finish
keep_finish-Keeps none s c t = t
keep_finish-Keeps (some reason) s c t = told-Keeps c s (stop reason) t

ensured-Keeps :
    (c : Client) (test : Bool) (e : String) (s : State)
    → IsTracked s c
    → Keeps c (ensure test e >>= λ _. ok s)
ensured-Keeps c true e s t = t
ensured-Keeps c false e s t = tt

retain-Keeps : (len : ℕ) (s : State) (c : Client) → IsTracked s c → Keeps c (retain len s)
unfolding retain
retain-Keeps len s c t =
    let total = saturating_add s.retained len in
    ensured-Keeps c (leb total limit) "Messages stream exceeds 64 MiB"
      (record s { retained = total }) t

add_detail-Keeps :
    (key : Option ℕ) (d : Value) (s : State) (c : Client)
    → IsTracked s c
    → Keeps c (add_detail key d s)
unfolding add_detail
add_detail-Keeps none d s c t = tt
add_detail-Keeps (some key) d s c t = t

add_details-Keeps :
    (ds : List Value) (s : State) (c : Client) → IsTracked s c → Keeps c (add_details ds s)
unfolding add_details
add_details-Keeps [] s c t = t
add_details-Keeps (d ∷ ds) s c t =
    let key = as_u64 (index d "index") in
    bind-Keeps c (add_detail key d s) (add_details ds) (add_detail-Keeps key d s c t)
      (λ u v. add_details-Keeps ds u c v)

module _ (codec : Codec) (chunk : Value) where
  pub note-Keeps : (s : State) (c : Client) → IsTracked s c → Keeps c (note codec chunk s)
  unfolding note
  note-Keeps s c t =
      let choice = at (index chunk "choices") 0 in
      let delta = index choice "delta" in
      let reason = as_str (index choice "finish_reason") in
      bind-Keeps c (keep_finish reason (keep_usage chunk s)) _
        (keep_finish-Keeps reason (keep_usage chunk s) c (keep_usage-IsTracked chunk s c t))
        (λ u v.
          bind-Keeps c (retain (codec.printed_len delta) u)
            (add_details (each (index delta "reasoning_details")))
            (retain-Keeps (codec.printed_len delta) u c v)
            (λ w x. add_details-Keeps (each (index delta "reasoning_details")) w c x))

  pub quiet-IsFollowed :
      (c : Client) (m : Fallible State) → Keeps c m → IsFollowed c (m >>= λ t. ok (t, []))
  quiet-IsFollowed c (ok s) h = nothing-IsFollowed c s h
  quiet-IsFollowed c (err e) h = tt
