-- ===== src/Recovery.antt =====
-- src/proxy/recovery.rs and `retry_delay` of src/proxy.rs: the budget of a request's retries. Times are in
-- milliseconds; the random draw and the wait that the upstream asked for are arguments.
pub mod Budget
mod Examples
use hey_proxy.Base.{
  ℕ, suc, ◌+◌, ◌-◌, ◌*◌, ◌/◌, ◌^◌, min, max, Bool, true, false, not, ◌&&◌, ◌||◌, Option, none, some,
  List, [], ◌∷◌, ltb, leb, ◌==◌, if◌then◌else◌,
}

-- `config.retry`
pub record RetryConfig : Type 0 where
  pub max_retries : ℕ
  pub initial_delay_ms : ℕ
  pub max_delay_ms : ℕ
  pub recovery_timeout_ms : ℕ

pub record Recovery : Type 0 where
  pub deadline : Option ℕ
  pub disabled : Bool
  pub retries : ℕ

-- `saturating_mul` of `u64` and `saturating_add` of `u32`
abbrev saturating_mul : ℕ → ℕ → ℕ
saturating_mul a b = min (a * b) (2 ^ 64 - 1)

abbrev saturating_add : ℕ → ℕ → ℕ
saturating_add a b = min (a + b) (2 ^ 32 - 1)

abbrev pub new : RetryConfig → ℕ → Recovery
new config now = record {
  deadline =
      if ltb 0 config.max_retries && ltb 0 config.recovery_timeout_ms
      then some (now + config.recovery_timeout_ms)
      else none;
  disabled = false;
  retries = 0;
}

abbrev pub for_request : Bool → RetryConfig → ℕ → Recovery
for_request fallback_attempt config now =
    if fallback_attempt
    then record { deadline = none; disabled = true; retries = 0 }
    else new config now

abbrev pub is_deadline : Option ℕ → Bool
is_deadline (some _) = true
is_deadline none = false

abbrev pub timed : Recovery → Bool
timed s = is_deadline s.deadline

-- The delay grows with the attempts, up to the cap.
abbrev pub exponential : RetryConfig → ℕ → ℕ
exponential config attempt =
    min (saturating_mul config.initial_delay_ms (2 ^ min attempt 20)) config.max_delay_ms

-- The draw is between 0 and the other half of the delay.
unfoldable pub retry_delay : RetryConfig → ℕ → ℕ → ℕ → ℕ
retry_delay config attempt draw retry_after =
    min (max (exponential config attempt / 2 + draw) retry_after) config.max_delay_ms

-- The answer of `retry`, and the time at which it is given.
pub record Verdict : Type 0 where
  pub again : Bool
  pub recovery : Recovery
  pub at : ℕ

abbrev pub stop : Recovery → ℕ → Verdict
stop s at = record { again = false; recovery = s; at = at }

abbrev pub go_on : Recovery → ℕ → Verdict
go_on s at = record {
  again = true;
  recovery = record s { retries = saturating_add s.retries 1 };
  at = at;
}

abbrev pub exhausted : RetryConfig → Recovery → Bool
exhausted config s =
    s.disabled || config.max_retries == 0 || (not (timed s) && leb config.max_retries s.retries)

-- The sleep, which a deadline forbids or bounds from below.
abbrev pub sleep : Option ℕ → Recovery → ℕ → ℕ → Verdict
sleep none s now delay = go_on s (now + delay)
sleep (some deadline) s now delay =
    if leb deadline (now + max delay 10)
    then stop s (max now deadline)
    else go_on s (now + max delay 10)

unfoldable pub retry : RetryConfig → Recovery → ℕ → ℕ → ℕ → Verdict
retry config s now draw retry_after =
    if exhausted config s
    then stop s now
    else sleep s.deadline s now (retry_delay config s.retries draw retry_after)
