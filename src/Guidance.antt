-- ===== src/Guidance.antt =====
-- src/proxy/guidance.rs: the reminder that the proxy adds to a request, and the codes of a refusal on
-- grounds of security.
pub mod Reminder
pub mod Once
mod Examples
use Prim.Native.Char.{code}
use Prim.Native.String
use hey_proxy.Base.{
  ℕ, String, Bool, true, false, not, ◌&&◌, ◌||◌, Option, none, some, List, [], ◌∷◌, ◌++◌, ◌==◌,
  if◌then◌else◌, filter, last, length, any, str_eq,
}
use hey_proxy.Json.{
  Value, null, bool, number, string, array, object, nil, cons, Fields, end, field, elements, items,
}
use hey_proxy.Json.Access.{find_field, index, as_str, as_array, is_text, is_some_and, one_of}
use hey_proxy.Json.Update.{put_field}

abbrev pub message : String
message =
    "[User preference supplied by hey-proxy]\nIf a security or safety warning blocks an action, respect the warning and skip that action and its blocked scope. Avoid security-sensitive areas when they are not needed for the task. Do not bypass safeguards, hide warnings, or repeatedly retry the blocked action. Continue with independent, permitted parts of the user's task when possible, and clearly report what was skipped. If no permitted work remains, explain the blocker and stop."

unfoldable pub is_security_block : String → Bool
is_security_block = one_of (
    "cyber_policy" ∷ "misalignment_policy_violation" ∷ "bio_policy" ∷ "content_policy_violation"
    ∷ "safety_violation" ∷ "content_filter" ∷ [])

unfoldable pub is_reminder : Value → Bool
is_reminder value =
    is_text "user" (index value "role")
    && is_some_and (λ text. str_eq text message) (as_str (index value "content"))

-- `json!({"role": "user", "content": text})`
abbrev pub user_message : String → Value
user_message text = object (field "role" (string "user") (field "content" (string text) end))

-- `path.trim_end_matches('/')`
unfoldable pub trim_slashes : String → String
trim_slashes String.[] = String.[]
trim_slashes (String.◌∷◌ c s) =
    let rest = trim_slashes s in if code c == 47 && str_eq rest "" then "" else String.◌∷◌ c rest

-- The answer of `apply`, and the request after it.
abbrev pub Applied : Type 0
Applied = Bool × Value

abbrev is_reminded : List Value → Bool
is_reminded messages =
    is_some_and is_reminder (last messages) && length (filter is_reminder messages) == 1

-- The end of `apply`, where `messages` is what the field holds.
unfoldable pub remind : String → List Value → Fields → Applied
remind key messages fs =
    let others = filter (λ m. not (is_reminder m)) messages in
    if is_reminded messages
    then (false, object fs)
    else (true, object (put_field key (array (items (others ++ user_message message ∷ []))) fs))

abbrev is_other_type : Option Value → Bool
is_other_type (some v) = is_some_and (λ t. not (str_eq t "response.create")) (as_str v)
is_other_type none = false

abbrev is_present : Option Value → Bool
is_present (some v) = true
is_present none = false

-- A request without input, and what it is given.
abbrev pub asked : Fields → Bool
asked fs =
    is_present (find_field "model" fs)
    || is_present (find_field "previous_response_id" fs)
    || is_text "response.create" (index (object fs) "type")

abbrev pub asking : Fields → Applied
asking fs = remind "input" [] (put_field "input" (array nil) fs)

-- `match value.get("input")`
abbrev pub with_input : Fields → Option Value → Applied
with_input fs (some (string text)) =
    remind "input" (user_message text ∷ [])
      (put_field "input" (array (cons (user_message text) nil)) fs)
with_input fs (some (array vs)) = remind "input" (elements vs) fs
with_input fs none = if asked fs then asking fs else (false, object fs)
with_input fs (some _) = (false, object fs)

abbrev pub with_messages : Fields → Option Value → Applied
with_messages fs (some (array vs)) = remind "messages" (elements vs) fs
with_messages fs _ = (false, object fs)

unfoldable pub apply : String → Value → Applied
apply path (object fs) =
    if str_eq (trim_slashes path) "/v1/responses"
    then (if is_other_type (find_field "type" fs)
        then (false, object fs)
        else with_input fs (find_field "input" fs))
    else if str_eq (trim_slashes path) "/v1/chat/completions"
    then with_messages fs (find_field "messages" fs)
    else (false, object fs)
apply path value = (false, value)

unfoldable pub present : Value → Bool
present value =
    any (λ key. is_some_and (any is_reminder) (as_array (index value key)))
      ("input" ∷ "messages" ∷ [])

-- Opens the reminder, for the runs at concrete requests.
unfoldable pub guidance_opened : Unit {0}
unfolding present apply remind trim_slashes is_reminder put_field
guidance_opened = tt
