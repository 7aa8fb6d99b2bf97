-- ===== src/Attempts/Request.antt =====
-- src/proxy/fallback.rs, `plan`: how the name of a candidate is resolved, by the rewriting of src/proxy.rs.
-- The texts that `rewrite` prints and `plan` parses again stand for the same values.
use hey_proxy.Base.{String, Bool, Option, if◌then◌else◌, Result, ok, err}
use hey_proxy.Json.{Value, string}
use hey_proxy.Json.Access.{index, as_str}
use hey_proxy.Json.Update.{map_some}
use hey_proxy.Fallback.Rules.{Fallbacks}
use hey_proxy.Routing.{Config}
use hey_proxy.Routing.Request.{RewriteError, Routed, set_field, rewrite_value}
use hey_proxy.Attempts.{Identity, Planned, plan}

-- `rewrite`, whose body is not empty here: an unchanged request keeps its body.
abbrev rewritten_body : Value → Routed → String × Value
rewritten_body payload (changed, (project, value)) = (project, if changed then value else payload)

abbrev resolved : Value → Result RewriteError Routed → Result String (Option Identity)
resolved payload (err e) = err "reasoning must be an object for Responses requests"
resolved payload (ok routed) =
    let (project, value) = rewritten_body payload routed in
    ok (map_some (λ (actual : String). (actual, project)) (as_str (index value "model")))

-- The payload of a candidate: the original request for the first, the rewritten one for the others.
abbrev payload_of : Value → Value → Bool → String → Value
payload_of original rewritten first requested =
    set_field "model" (string requested) (if first then original else rewritten)

unfoldable pub resolve :
    Config → String → Value → Value → Bool → String → Result String (Option Identity)
resolve config path original rewritten first requested =
    let payload = payload_of original rewritten first requested in
    resolved payload (rewrite_value config path payload)

unfoldable pub plan_request : Config → Fallbacks → String → Value → Value → Planned
plan_request config fallbacks path original rewritten =
    plan (resolve config path original rewritten) fallbacks (as_str (index original "model"))
