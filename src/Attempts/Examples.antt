-- ===== src/Attempts/Examples.antt =====
-- Runs of src/proxy/fallback.rs at concrete rules and answers.
use hey_proxy.Base.{
  ℕ, String, ◌≡◌, ◌≢◌, refl, Bool, Option, false, none, some, List, [], ◌∷◌, Result, ok, err,
  if◌then◌else◌, str_eq,
}
use hey_proxy.Fallback.Rules.{Fallbacks, opened}
use hey_proxy.Attempts.{Candidate, Identity, Planning, plan, out_of_fuel, attempts, pop, plan_loop}
use hey_proxy.Json.{Value, string, object, end, field}
use hey_proxy.Routing.{Config}
use hey_proxy.Routing.Request.{request_opened}
use hey_proxy.Attempts.Request.{resolve as resolve_request, plan_request}
use hey_proxy.Attempts.Candidates.{IsPlan, plan-IsPlan, plan-ne-out_of_fuel}
use hey_proxy.Attempts.Loop.{IsAnswered, attempts-IsAnswered}

abbrev rules : Fallbacks
rules = ("a", "b" ∷ "c" ∷ []) ∷ ("b", "alias" ∷ []) ∷ []

-- An alias for the first model: a cycle that only the identities show.
abbrev resolve : Bool → String → Result String (Option Identity)
resolve original name = if str_eq name "alias" then ok (some ("a", "p")) else ok (some (name, "p"))

abbrev planned : Planning
planned = record {
  seen = ("a", "p") ∷ ("b", "p") ∷ ("c", "p") ∷ [];
  candidates =
      record { requested = "a"; actual = "a" }
      ∷ record { requested = "b"; actual = "b" }
      ∷ record { requested = "c"; actual = "c" }
      ∷ [];
}

abc_planned : plan resolve rules (some "a") ≡ ok planned
unfolding opened plan plan_loop pop
abc_planned = refl

plan-IsPlan_example : IsPlan rules "a" planned
plan-IsPlan_example = plan-IsPlan rules "a" resolve planned abc_planned

plan-ne-out_of_fuel_example : plan resolve rules (some "a") ≢ err out_of_fuel
plan-ne-out_of_fuel_example = plan-ne-out_of_fuel rules "a" resolve

-- The second attempt is answered.
abbrev attempt : ℕ → Candidate → ℕ × Option String
attempt index candidate = if str_eq candidate.actual "b" then (200, none) else (503, some "http")

second_answers : attempts attempt 0 planned.candidates ≡ some (200, 1)
unfolding attempts
second_answers = refl

abbrev first_two : List Candidate
first_two = record { requested = "b"; actual = "b" } ∷ []

attempts-IsAnswered_example :
    IsAnswered attempt 0 (record { requested = "a"; actual = "a" } ∷ first_two)
attempts-IsAnswered_example =
    attempts-IsAnswered attempt 0 (record { requested = "a"; actual = "a" }) first_two

-- The planning of a request by the source's rewriting.
abbrev config : Config
config = record {
  api_keys = "work" ∷ [];
  default = "work";
  aliases =
      record {
        api_shape = none;
        reasoning_routes = [];
        from = "alias";
        to = some "openai/a";
        reasoning = none;
        api_key = none;
      }
      ∷ [];
  skip_blocked_security_work = false;
}

abbrev request : Value
request = object (field "model" (string "alias") end)

abbrev request_planned : Planning
request_planned = record {
  seen = ("a", "work") ∷ ("b", "work") ∷ ("c", "work") ∷ [];
  candidates =
      record { requested = "alias"; actual = "a" }
      ∷ record { requested = "b"; actual = "b" }
      ∷ record { requested = "c"; actual = "c" }
      ∷ [];
}

request_run : plan_request config rules "/v1/responses" request request ≡ ok request_planned
unfolding plan_request resolve_request request_opened opened plan plan_loop pop
request_run = refl
