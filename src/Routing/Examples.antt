-- ===== src/Routing/Examples.antt =====
-- Runs of the routing at a concrete configuration.
use hey_proxy.Base.{◌≤◌, ◌≡◌, refl, true, false, none, some, [], ◌∷◌, filter, length, ok, err}
use hey_proxy.Json.{Value, string, object, end, field}
use hey_proxy.Routing.{
  Alias, Config, responses, messages, matches, is_project, overlapping, validate_routing,
  routing_opened,
}
use hey_proxy.Routing.Unique.{matches_unique}
use hey_proxy.Routing.Request.{Routed, rewrite_value, request_opened}
use hey_proxy.Routing.Request.Projects.{rewrite_value-is_project}

abbrev fast : Alias
fast = record {
  api_shape = some responses;
  reasoning_routes = ("low", record { to = "mini"; api_key = some "cheap" }) ∷ [];
  from = "fast";
  to = some "openai/gpt";
  reasoning = none;
  api_key = some "work";
}

abbrev config : Config
config = record {
  api_keys = "work" ∷ "cheap" ∷ [];
  default = "work";
  aliases = fast ∷ record fast { api_shape = some messages } ∷ [];
  skip_blocked_security_work = false;
}

config_valid : validate_routing config ≡ ok tt
unfolding routing_opened
config_valid = refl

overlap_refused :
    validate_routing (record config { aliases = fast ∷ record fast { api_shape = none } ∷ [] })
    ≡ err overlapping
unfolding routing_opened
overlap_refused = refl

matches_unique_example : length (filter (matches "fast" "/v1/responses") config.aliases) ≤ 1
matches_unique_example = matches_unique config "fast" "/v1/responses" config_valid

abbrev request : Value
request = object (field "model" (string "fast") end)

abbrev routed : Routed
routed = (true, ("work", object (field "model" (string "gpt") end)))

gpt_chosen : rewrite_value config "/v1/responses" request ≡ ok routed
unfolding request_opened
gpt_chosen = refl

abbrev low : Value
low = object (
    field "model" (string "fast")
      (field "reasoning" (object (field "effort" (string "low") end)) end))

low_routed :
    rewrite_value config "/v1/responses" low
    ≡ ok (
      true,
      (
        "cheap",
        object (
            field "model"
              (string "mini")
              (field "reasoning" (object (field "effort" (string "low") end)) end)),
      ),
    )
unfolding request_opened
low_routed = refl

rewrite_value-is_project_example : is_project config routed.1.0 ≡ true
rewrite_value-is_project_example =
    rewrite_value-is_project config "/v1/responses" request routed config_valid gpt_chosen
