-- ===== src/Fallback/Policy.antt =====
-- src/fallback.rs, the failure policy: which requests may be replayed on another model, and which
-- upstream answers are a refusal. The JSON parser is the parameter `from_slice`.
pub mod Tools
pub mod Permanent
pub mod Safety
use hey_proxy.Base.{
  ℕ, String, Bool, true, false, not, ◌&&◌, ◌||◌, Option, none, some, List, [], ◌∷◌, map, ltb, ◌==◌,
  if◌then◌else◌, any, is_empty,
}
use hey_proxy.Base.Text.{codes, contains, to_lower}
use hey_proxy.Json.{Value, null, bool, array, object, Items, nil, cons, Fields, end, field}
use hey_proxy.Json.Access.{
  get, index, pointer, or_null, or_else, as_str, as_u64, as_array, is_null, is_true, is_some_and,
  one_of,
}
use hey_proxy.Base.{str_eq}

-- `local_tool`. The field `tools` is looked up along with the recursion on its value, so that the
-- recursion is structural: `local_tool_lem` in `Policy.Tools` states it by lookups.
abbrev tool_kind : Option String → Bool → Bool
tool_kind (some kind) nested =
    if str_eq kind "function" || str_eq kind "custom"
    then true
    else if str_eq kind "namespace"
    then nested
    else false
tool_kind none nested = false

unfoldable mutual
  pub local_tool : Value → Bool
  local_tool (object fs) = tool_kind (as_str (index (object fs) "type")) (tools_field fs)
  local_tool _ = false

  pub tools_field : Fields → Bool
  tools_field end = false
  tools_field (field k v fs) =
      let rest = tools_field fs in if str_eq k "tools" then tools_value v else rest

  pub tools_value : Value → Bool
  tools_value (array vs) = all_local vs
  tools_value _ = false

  pub all_local : Items → Bool
  all_local nil = true
  all_local (cons v vs) = local_tool v && all_local vs

-- The request names state that only the deployment which answered before has.
unfoldable pub names_conversation : Value → Bool
names_conversation request =
    is_some_and (λ v. not (is_null v)) (get request "previous_response_id")
    || is_some_and (λ v. not (is_null v)) (get request "conversation")

abbrev has_hosted_tool : Value → Bool
has_hosted_tool (array tools) = not (all_local tools)
has_hosted_tool _ = false

unfoldable pub replay_blocker : Value → Option String
replay_blocker request =
    if names_conversation request
    then some "server_side_conversation"
    else if is_true (index request "background")
    then some "background_request"
    else if has_hosted_tool (index request "tools")
    then some "hosted_tools"
    else none

abbrev pub permanent_codes : List String
permanent_codes =
    "insufficient_quota" ∷ "invalid_prompt" ∷ "invalid_request_error" ∷ "billing_hard_limit_reached"
    ∷ "billing_not_active" ∷ "invalid_api_key" ∷ "authentication_error" ∷ "permission_error"
    ∷ "credit_balance_exhausted" ∷ "organization_spend_limit_exceeded"
    ∷ "project_spend_limit_exceeded" ∷ "context_length_exceeded" ∷ "content_policy_violation"
    ∷ "cyber_policy" ∷ "bio_policy" ∷ "misalignment_policy_violation" ∷ "content_filter"
    ∷ "UNAUTHENTICATED" ∷ "PERMISSION_DENIED" ∷ "INVALID_ARGUMENT" ∷ "NOT_FOUND"
    ∷ "FAILED_PRECONDITION" ∷ "OUT_OF_RANGE" ∷ "UNIMPLEMENTED" ∷ "ALREADY_EXISTS" ∷ []

-- `code.to_ascii_lowercase().contains(word)`
abbrev pub mentions : String → String → Bool
mentions word text = contains (codes word) (map to_lower (codes text))

unfoldable pub permanent_code : String → Bool
permanent_code code =
    one_of permanent_codes code || mentions "security" code || mentions "safety" code

unfoldable pub permanent : Value → Bool
permanent error =
    any (λ key. is_some_and permanent_code (as_str (index error key)))
      ("code" ∷ "type" ∷ "gemini_status" ∷ [])

abbrev is_filled : Option Value → Bool
is_filled (some v) = is_some_and (λ vs. not (is_empty vs)) (as_array v)
is_filled none = false

abbrev is_positive : Option Value → Bool
is_positive (some v) = is_some_and (λ n. ltb 0 n) (as_u64 v)
is_positive none = false

unfoldable pub has_output : Value → Bool
has_output value =
    (is_filled (pointer value ("response" ∷ "output" ∷ []))
      || is_filled (pointer value ("output" ∷ [])))
    || is_positive (pointer value ("response" ∷ "usage" ∷ "output_tokens" ∷ []))
    || is_positive (pointer value ("usage" ∷ "output_tokens" ∷ []))

abbrev is_transient_status : ℕ → Bool
is_transient_status status = any (λ s. status == s) (408 ∷ 429 ∷ 500 ∷ 502 ∷ 503 ∷ 504 ∷ 529 ∷ [])

pub data Prelude : Type 0 where
  waiting committed refused : Prelude

abbrev pub is_waiting : Prelude → Bool
is_waiting waiting = true
is_waiting _ = false

abbrev transient_error : Bool → Value → Bool
transient_error true error =
    is_some_and
      (one_of (
        "RESOURCE_EXHAUSTED" ∷ "UNAVAILABLE" ∷ "INTERNAL" ∷ "DEADLINE_EXCEEDED" ∷ "ABORTED"
        ∷ "UNKNOWN" ∷ []))
      (as_str (index error "gemini_status"))
transient_error false error =
    is_some_and
      (one_of (
        "server_error" ∷ "server_is_overloaded" ∷ "capacity_exceeded" ∷ "rate_limit_exceeded"
        ∷ "request_timeout" ∷ []))
      (as_str (index error "code"))

-- The event may carry an error: it is `response.failed`, `error`, or has no type at all.
abbrev may_refuse : Value → Bool
may_refuse value =
    is_some_and (one_of ("response.failed" ∷ "error" ∷ [])) (as_str (index value "type"))
    || is_none (get value "type")
  where
    is_none : Option Value → Bool
    is_none none = true
    is_none (some _) = false

unfoldable pub on_error : Bool → Value → Value → Prelude
on_error gemini value error =
    if permanent error
    then committed
    else if transient_error gemini error && may_refuse value
    then refused
    else committed

unfoldable pub on_progress : Value → Prelude
on_progress value =
    if is_some_and (one_of ("response.created" ∷ "response.in_progress" ∷ []))
      (as_str (index value "type"))
    then waiting
    else committed

-- `pointer("/response/error").or_else(|| get("error"))`
unfoldable pub error_of : Value → Option Value
error_of value = or_else (pointer value ("response" ∷ "error" ∷ [])) (get value "error")

abbrev by_error : Bool → Value → Option Value → Prelude
by_error gemini value (some error) =
    if is_null error then on_progress value else on_error gemini value error
by_error gemini value none = on_progress value

-- `transient_http` and `prelude_event` behind the parser.
unfoldable pub transient_value : ℕ → Value → Bool
transient_value status value =
    not (has_output value)
    && not (
        is_some_and permanent (pointer value ("error" ∷ []))
        || is_some_and permanent (pointer value ("response" ∷ "error" ∷ [])))
    && is_transient_status status

unfoldable pub prelude_value : Bool → Option Value → Prelude
prelude_value gemini none = committed
prelude_value gemini (some value) =
    if has_output value then committed else by_error gemini value (error_of value)

module _ (from_slice : List ℕ → Option Value) where
  unfoldable pub transient_http : ℕ → List ℕ → Bool
  transient_http status body = transient_value status (or_null (from_slice body))

  unfoldable pub prelude_event : List ℕ → Bool → Prelude
  prelude_event bytes gemini = prelude_value gemini (from_slice bytes)

-- Opens the failure policy, for the runs at concrete answers.
unfoldable pub policy_opened : Unit {0}
unfolding transient_http transient_value prelude_event prelude_value has_output permanent
    permanent_code contains error_of on_error on_progress
policy_opened = tt
