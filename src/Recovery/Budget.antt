-- ===== src/Recovery/Budget.antt =====
-- src/proxy/recovery.rs: how many retries a request gets, and how long they wait.
use hey_proxy.Base.{
  ℕ, suc, ◌+◌, ◌-◌, ◌*◌, ◌/◌, ◌^◌, ◌≤◌, ◌<◌, ◌≡◌, refl, sym, ap, ◌∙◌, inl, inr, max, Bool, true,
  false, not, ◌&&◌, ◌||◌, none, some, List, [], ◌∷◌, arith, leb, ◌==◌, if◌then◌else◌, Bool-cases,
  leb-eq-false,
}
use mathlib.Core.Path.{subst}
use hey_proxy.Recovery.{
  stop, go_on, timed, is_deadline, RetryConfig, Recovery, Verdict, new, for_request, exponential,
  retry_delay, exhausted, sleep, retry,
}

-- The delay is at least half of the exponential one and never above the cap, whatever is drawn and
-- whatever the upstream asks for.
pub retry_delay_bounds :
    (config : RetryConfig) (attempt draw retry_after : ℕ)
    → (exponential config attempt / 2 ≤ retry_delay config attempt draw retry_after)
      × (retry_delay config attempt draw retry_after ≤ config.max_delay_ms)
unfolding retry_delay
retry_delay_bounds config attempt draw retry_after = (omega arith, omega arith)

-- A failed attempt: the time it took, and what the wait behind it depends on. The sleep may be late.
pub record Failure : Type 0 where
  pub took : ℕ
  pub draw : ℕ
  pub retry_after : ℕ
  pub late : ℕ

-- The retries that are granted when every attempt fails.
unfoldable pub granted : RetryConfig → Recovery → ℕ → List Failure → ℕ
granted config s now [] = 0
granted config s now (f ∷ fs) =
    let verdict = retry config s (now + f.took) f.draw f.retry_after in
    let more = granted config verdict.recovery (verdict.at + f.late) fs in
    if verdict.again then suc more else 0

-- A verdict to go on comes from the sleep.
retry-again :
    (config : RetryConfig) (s : Recovery) (now draw retry_after : ℕ)
    → (retry config s now draw retry_after).again ≡ true
    → (exhausted config s ≡ false)
      × (retry config s now draw retry_after
          ≡ sleep s.deadline s now (retry_delay config s.retries draw retry_after))
unfolding retry
retry-again config s now draw retry_after again = elim (Bool-cases (exhausted config s)) [
  | inl over ↦
      let stops : (retry config s now draw retry_after).again ≡ false =
        ap
          (λ b.
            (if b
              then stop s now
              else sleep s.deadline s now (retry_delay config s.retries draw retry_after)).again)
          over in
      cc
  | inr left ↦ (
    left,
    ap
        (λ b.
          if b
          then stop s now
          else sleep s.deadline s now (retry_delay config s.retries draw retry_after))
        left,
  )
]

-- A verdict to go on, where there is no deadline and where there is one.
record IsCounted (config : RetryConfig) (s : Recovery) (v : Verdict) : Type 0 where
  pub room : suc s.retries ≤ config.max_retries
  pub counted : v.recovery.retries ≡ suc s.retries
  pub untimed : v.recovery.deadline ≡ none

record IsTimed (d now : ℕ) (v : Verdict) : Type 0 where
  pub slept : now + 10 ≤ v.at
  pub in_time : v.at < d
  pub timed : v.recovery.deadline ≡ some d

unexhausted : (a b c d : Bool) → (a || b || (not c && d)) ≡ false → c ≡ false → d ≡ false
unexhausted a b c d h e = ground arith

retry-IsCounted :
    (config : RetryConfig) (s : Recovery) (now draw retry_after : ℕ)
    → config.max_retries < 2 ^ 32
    → s.deadline ≡ none
    → (retry config s now draw retry_after).again ≡ true
    → IsCounted config s (retry config s now draw retry_after)
retry-IsCounted config s now draw retry_after word untimed again =
    let (left, slept) = retry-again config s now draw retry_after again in
    let delay : ℕ = retry_delay config s.retries draw retry_after in
    let few : leb config.max_retries s.retries ≡ false =
      unexhausted s.disabled (config.max_retries == 0) (timed s) (leb config.max_retries s.retries)
        left (ap is_deadline untimed) in
    let room : s.retries < config.max_retries = leb-eq-false config.max_retries s.retries few in
    subst (IsCounted config s) (sym (slept ∙ ap (λ o. sleep o s now delay) untimed))
      (record { room = room; counted = omega (arith, room, word); untimed = untimed })

sleep-IsTimed :
    (d now delay : ℕ) (s : Recovery)
    → s.deadline ≡ some d
    → (sleep (some d) s now delay).again ≡ true
    → IsTimed d now (sleep (some d) s now delay)
sleep-IsTimed d now delay s timed again = elim (Bool-cases (leb d (now + max delay 10))) [
  | inl late ↦
      let stops : (sleep (some d) s now delay).again ≡ false =
        ap (λ b. (if b then stop s (max now d) else go_on s (now + max delay 10)).again) late in
      cc
  | inr in_time ↦
      subst (IsTimed d now)
        (sym (ap (λ b. if b then stop s (max now d) else go_on s (now + max delay 10)) in_time))
        (record {
          slept = omega arith;
          in_time = leb-eq-false d (now + max delay 10) in_time;
          timed = timed;
        })
]

retry-IsTimed :
    (config : RetryConfig) (s : Recovery) (now draw retry_after d : ℕ)
    → s.deadline ≡ some d
    → (retry config s now draw retry_after).again ≡ true
    → IsTimed d now (retry config s now draw retry_after)
retry-IsTimed config s now draw retry_after d timed again =
    let (left, slept) = retry-again config s now draw retry_after again in
    let delay : ℕ = retry_delay config s.retries draw retry_after in
    let is : retry config s now draw retry_after ≡ sleep (some d) s now delay =
      slept ∙ ap (λ o. sleep o s now delay) timed in
    subst (IsTimed d now) (sym is)
      (sleep-IsTimed d now delay s timed (ap (λ (v : Verdict). v.again) (sym is) ∙ again))

granted-counted :
    (config : RetryConfig) (fs : List Failure) (s : Recovery) (now : ℕ)
    → config.max_retries < 2 ^ 32
    → s.deadline ≡ none
    → s.retries ≤ config.max_retries
    → granted config s now fs + s.retries ≤ config.max_retries
unfolding granted
granted-counted config [] s now word untimed few = omega (arith, few)
granted-counted config (f ∷ fs) s now word untimed few =
    let v = retry config s (now + f.took) f.draw f.retry_after in
    elim (Bool-cases v.again) [
      | inr stops ↦ rw stops (omega (arith, few))
      | inl again ↦
          let k = retry-IsCounted config s (now + f.took) f.draw f.retry_after word untimed again in
          let rest =
            granted-counted config fs v.recovery (v.at + f.late) word k.untimed
              (omega (arith, k.room, k.counted)) in
          rw again (omega (arith, rest, k.counted))
    ]

granted-timed :
    (config : RetryConfig) (fs : List Failure) (s : Recovery) (now d : ℕ)
    → s.deadline ≡ some d
    → granted config s now fs * 10 ≤ d - now
unfolding granted
granted-timed config [] s now d timed = omega arith
granted-timed config (f ∷ fs) s now d timed =
    let v = retry config s (now + f.took) f.draw f.retry_after in
    elim (Bool-cases v.again) [
      | inr stops ↦ rw stops (omega arith)
      | inl again ↦
          let k = retry-IsTimed config s (now + f.took) f.draw f.retry_after d timed again in
          let rest = granted-timed config fs v.recovery (v.at + f.late) d k.timed in
          rw again (omega (arith, rest, k.slept, k.in_time))
    ]

-- Without a time budget a request whose attempts all fail is retried at most `max_retries` times,
-- whatever the attempts take and the upstream asks for. (The configured number is a `u32`.)
pub retries_counted :
    (config : RetryConfig) (fs : List Failure) (now : ℕ)
    → config.max_retries < 2 ^ 32
    → config.recovery_timeout_ms ≡ 0
    → granted config (for_request false config now) now fs ≤ config.max_retries
retries_counted config fs now word untimed =
    let no_deadline : (new config now).deadline ≡ none = ground arith in
    omega (arith, granted-counted config fs (new config now) now word no_deadline (omega arith))

-- With a time budget each retry uses up at least 10 ms of it: a request whose attempts all fail is retried
-- at most once per 10 ms of the budget, even if no delay is configured.
pub retries_timed :
    (config : RetryConfig) (fs : List Failure) (now : ℕ)
    → 0 < config.max_retries
    → 0 < config.recovery_timeout_ms
    → granted config (for_request false config now) now fs * 10 ≤ config.recovery_timeout_ms
retries_timed config fs now some_retries some_time =
    let deadline : (new config now).deadline ≡ some (now + config.recovery_timeout_ms) =
      ground arith in
    omega (
      arith,
      granted-timed config fs (new config now) now (now + config.recovery_timeout_ms) deadline,
    )

-- An attempt on a fallback model is never retried, whatever the configuration.
pub no_retries :
    (config : RetryConfig) (fs : List Failure) (now : ℕ)
    → granted config (for_request true config now) now fs ≡ 0
unfolding granted
no_retries config [] now = refl
no_retries config (f ∷ fs) now =
    let s : Recovery = for_request true config now in
    elim (Bool-cases (retry config s (now + f.took) f.draw f.retry_after).again) [
      | inr stops ↦ rw stops
      | inl again ↦
          let (left, _) = retry-again config s (now + f.took) f.draw f.retry_after again in cc
    ]
