-- ===== src/Recovery/Examples.antt =====
-- Runs of src/proxy/recovery.rs at concrete configurations.
use hey_proxy.Base.{◌*◌, ◌/◌, ◌≤◌, ◌≡◌, refl, true, false, List, [], ◌∷◌, arith}
use hey_proxy.Recovery.{RetryConfig, exponential, retry_delay, retry, for_request}
use hey_proxy.Recovery.Budget.{
  Failure, granted, retry_delay_bounds, retries_counted, retries_timed, no_retries,
}

abbrev counted : RetryConfig
counted = record {
  max_retries = 2;
  initial_delay_ms = 500;
  max_delay_ms = 30000;
  recovery_timeout_ms = 0;
}

abbrev timed_config : RetryConfig
timed_config = record {
  max_retries = 1;
  initial_delay_ms = 1;
  max_delay_ms = 1;
  recovery_timeout_ms = 100;
}

abbrev failure : Failure
failure = record { took = 20; draw = 0; retry_after = 0; late = 1 }

abbrev failures : List Failure
failures = failure ∷ failure ∷ failure ∷ failure ∷ []

counted_twice : granted counted (for_request false counted 7) 7 failures ≡ 2
unfolding granted retry retry_delay
counted_twice = refl

timed_thrice : granted timed_config (for_request false timed_config 7) 7 failures ≡ 3
unfolding granted retry retry_delay
timed_thrice = refl

retry_delay_bounds_example :
    (exponential counted 3 / 2 ≤ retry_delay counted 3 10 90000)
    × (retry_delay counted 3 10 90000 ≤ counted.max_delay_ms)
retry_delay_bounds_example = retry_delay_bounds counted 3 10 90000

retries_counted_example :
    granted counted (for_request false counted 7) 7 failures ≤ counted.max_retries
retries_counted_example = retries_counted counted failures 7 (omega arith) refl

retries_timed_example :
    granted timed_config (for_request false timed_config 7) 7 failures * 10
    ≤ timed_config.recovery_timeout_ms
retries_timed_example = retries_timed timed_config failures 7 (omega arith) (omega arith)

fallback_not_retried : granted timed_config (for_request true timed_config 7) 7 failures ≡ 0
fallback_not_retried = no_retries timed_config failures 7
