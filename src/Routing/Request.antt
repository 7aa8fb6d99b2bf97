-- ===== src/Routing/Request.antt =====
-- src/proxy.rs, `rewrite_value`: the rewriting of a request by the reminder, the aliases and the prefix
-- `openai/`, and the choice of the project that pays for it.
pub mod Projects
use hey_proxy.Base.{
  ℕ, String, Bool, true, false, not, ◌&&◌, ◌||◌, Option, none, some, List, [], ◌∷◌, if◌then◌else◌,
  Result, ok, err, ◌>>=◌,
}
use hey_proxy.Base.Text.{codes, contains, starts_with, equal_bytes, ends_with, strip_prefix}
use hey_proxy.Json.{Value, null, bool, number, string, array, object, end, field}
use hey_proxy.Json.Access.{get, pointer, as_str, one_of, is_some_and, or_else}
use hey_proxy.Json.Update.{put_field, change_at, change_field, map_some}
use hey_proxy.Capacity.{and_also, is_some}
use hey_proxy.Fallback.Rules.{lookup}
use hey_proxy.Guidance.{Applied, trim_slashes, apply, remind, is_reminder}
use hey_proxy.Routing.{Alias, ReasoningRoute, Config, alias_for, from_path}

-- `path.trim_end_matches('/').ends_with(suffix)`
abbrev path_ends : String → String → Bool
path_ends suffix path = ends_with (codes suffix) (codes (trim_slashes path))

-- `messages::is_path`
unfoldable pub is_path : String → Bool
is_path path =
    one_of
      ("/v1/custom/messages" ∷ "/custom/v1/messages" ∷ "/v1/custom/messages/count_tokens"
        ∷ "/custom/v1/messages/count_tokens" ∷ [])
      (trim_slashes path)

abbrev pub text_at : Value → List String → Option String
text_at value path = and_also (pointer value path) as_str

abbrev of_thinking : String → Option String
of_thinking kind =
    if one_of ("disabled" ∷ []) kind
    then some "none"
    else if one_of ("enabled" ∷ "adaptive" ∷ []) kind
    then some "medium"
    else none

abbrev of_enabled : Option Value → Option String
of_enabled (some (bool true)) = some "medium"
of_enabled (some (bool false)) = some "none"
of_enabled _ = none

unfoldable pub requested_effort : String → Value → Option String
requested_effort path value =
    if is_path path
    then or_else (text_at value ("output_config" ∷ "effort" ∷ [])) (
        or_else (text_at value ("reasoning" ∷ "effort" ∷ []))
          (and_also (text_at value ("thinking" ∷ "type" ∷ [])) of_thinking))
    else if path_ends "/chat/completions" path
    then or_else (text_at value ("reasoning_effort" ∷ [])) (
        or_else (text_at value ("reasoning" ∷ "effort" ∷ []))
          (of_enabled (pointer value ("reasoning" ∷ "enabled" ∷ []))))
    else text_at value ("reasoning" ∷ "effort" ∷ [])

-- The one refusal: `reasoning` of a Responses request is no object.
pub data RewriteError : Type 0 where
  reasoning_not_object : RewriteError

-- `value[key] = v`; `value` is an object wherever this is reached, since its model was found.
abbrev pub set_field : String → Value → Value → Value
set_field key v (object fs) = object (put_field key v fs)
set_field key v value = value

abbrev set_effort : String → Value → Option Value → Result RewriteError Value
set_effort effort value none =
    ok (set_field "reasoning" (object (field "effort" (string effort) end)) value)
set_effort effort value (some null) =
    ok (set_field "reasoning" (object (field "effort" (string effort) end)) value)
set_effort effort value (some (object fs)) =
    ok (set_field "reasoning" (object (put_field "effort" (string effort) fs)) value)
set_effort effort value (some _) = err reasoning_not_object

abbrev pub with_effort : String → Option String → Value → Result RewriteError Value
with_effort path none value = ok value
with_effort path (some effort) value =
    if path_ends "/responses" path
    then set_effort effort value (get value "reasoning")
    else if path_ends "/chat/completions" path
    then ok (set_field "reasoning_effort" (string effort) value)
    else ok value

-- `if let Some(model) = ... { *value.pointer_mut(pointer) = model }`
abbrev pub set_model : List String → Option String → Value → Value
set_model pointer (some model) value = elim (change_at pointer (λ _. some (string model)) value) [
  | some changed ↦ changed
  | none ↦ value
]
set_model pointer none value = value

abbrev pub project_or : String → Option String → String
project_or default (some key) = key
project_or default none = default

abbrev route_key : Option ReasoningRoute → Option String
route_key (some route) = route.api_key
route_key none = none

abbrev pub route_of : Alias → Option String → Option ReasoningRoute
route_of alias (some effort) = lookup effort alias.reasoning_routes
route_of alias none = none

-- The project that an alias selects, if it does.
abbrev pub alias_key : Alias → Option ReasoningRoute → Option String
alias_key alias route = or_else (route_key route) alias.api_key

-- Whether an alias applied, the project, and the request.
abbrev pub Routed : Type 0
Routed = Bool × (String × Value)

abbrev pub with_alias :
    Config → String → List String → Value → Option Alias → Result RewriteError Routed
with_alias config path pointer value none = ok (false, (config.default, value))
with_alias config path pointer value (some alias) =
    let route = route_of alias (requested_effort path value) in
    let model = or_else (map_some (λ (r : ReasoningRoute). r.to) route) alias.to in
    with_effort path alias.reasoning (set_model pointer model value) >>= λ changed.
    ok (true, (project_or config.default (alias_key alias route), changed))

abbrev pub model_pointer : String → Value → List String
model_pointer path value =
    if contains (codes "/realtime/") (codes path)
      && is_some (pointer value ("session" ∷ "model" ∷ []))
    then "session" ∷ "model" ∷ []
    else "model" ∷ []

abbrev pub finish : Bool → List String → Routed → Routed
finish guided pointer (aliased, (project, value)) =
    let explicit = and_also (text_at value pointer) (strip_prefix "openai/") in
    (guided || is_some explicit || aliased, (project, set_model pointer explicit value))

unfoldable pub rewrite_value : Config → String → Value → Result RewriteError Routed
rewrite_value config path request =
    let (guided, value) =
      if config.skip_blocked_security_work then apply path request else (false, request) in
    let pointer = model_pointer path value in
    let alias = and_also (text_at value pointer) (λ model. alias_for config model path) in
    with_alias config path pointer value alias >>= λ routed. ok (finish guided pointer routed)

-- Opens the rewriting, for the runs at concrete requests.
unfoldable pub request_opened : Unit {0}
unfolding rewrite_value requested_effort is_path change_at change_field put_field apply remind
    trim_slashes is_reminder alias_for from_path contains starts_with ends_with equal_bytes
    strip_prefix
request_opened = tt
