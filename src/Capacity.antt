-- ===== src/Capacity.antt =====
-- src/proxy/capacity.rs, single events: which upstream errors are a refusal for want of capacity, and
-- their translation to a retryable server error. The JSON parser and printer are the parameters
-- `from_slice` and `to_vec`.
pub mod Translation
pub mod Stream
pub mod Scan
mod Examples
use hey_proxy.Base.{
  ℕ, String, Bool, true, false, not, ◌&&◌, ◌||◌, Option, none, some, List, [], ◌∷◌, map, ltb,
  if◌then◌else◌, any, is_empty, str_eq,
}
use hey_proxy.Base.Text.{codes, contains, to_lower, join, strip_prefix}
use hey_proxy.Json.{Value, string, number, unsigned, object, nil, cons, Fields, end, field}
use hey_proxy.Json.Access.{
  find_field, get, index, pointer, as_str, as_u64, as_array, is_text, is_some_and, one_of, or_null,
}
use hey_proxy.Json.Update.{put_field, change_field, change_at, map_some}
use hey_proxy.Guidance.{is_security_block}

abbrev lasting_codes : List String
lasting_codes =
    "insufficient_quota" ∷ "invalid_prompt" ∷ "billing_hard_limit_reached" ∷ "billing_not_active"
    ∷ "invalid_api_key" ∷ "credit_balance_exhausted" ∷ "organization_spend_limit_exceeded"
    ∷ "project_spend_limit_exceeded" ∷ []

unfoldable pub permanent : Value → Bool
permanent error =
    any
      (λ key.
        is_some_and is_security_block (as_str (index error key))
        || is_some_and (one_of lasting_codes) (as_str (index error key)))
      ("code" ∷ "type" ∷ [])

-- `value.as_str().unwrap_or("")`
abbrev pub text_of : Value → String
text_of (string s) = s
text_of _ = ""

unfoldable pub capacity_message : String → Bool
capacity_message text =
    any (λ phrase. contains (codes phrase) (map to_lower (codes text)))
      ("overloaded" ∷ "out of capacity" ∷ "at capacity" ∷ "capacity_exceeded" ∷ [])

abbrev pub translated : String
translated = "Upstream model is at capacity; hey-proxy translated"

abbrev pub is_some {ℓ} : {A : Type ℓ} → Option A → Bool
is_some (some a) = true
is_some none = false

unfoldable pub is_capacity : Value → Bool
is_capacity error =
    if permanent error
      || (str_eq (text_of (index error "code")) "server_error"
          && is_some (strip_prefix translated (text_of (index error "message"))))
    then false
    else any (one_of ("server_is_overloaded" ∷ "capacity_exceeded" ∷ []))
        (text_of (index error "code") ∷ text_of (index error "type") ∷ [])
      || capacity_message (text_of (index error "message"))

abbrev pub explained : String → String
explained original = join translated (
    join " this capacity failure to a retryable server error. Original upstream message: "
      (if str_eq original "" then "(none provided)" else original))

-- `if let Some(code) = error.get("code").cloned() { error["upstream_code"] = code }`
abbrev pub keep_code : Option Value → Fields → Fields
keep_code (some code) fs = put_field "upstream_code" code fs
keep_code none fs = fs

-- `rewrite_error`: the new error, or none where the source returns false.
unfoldable pub rewrite_error : Value → Option Value
rewrite_error (object fs) =
    let original = text_of (index (object fs) "message") in
    if is_capacity (object fs)
    then some (
        object (
          put_field "message" (string (explained original)) (
            put_field "type" (string "server_error")
              (put_field "code" (string "server_error") (keep_code (find_field "code" fs) fs)))))
    else none
rewrite_error _ = none

abbrev pub status_500 : Value
status_500 = number (unsigned 500)

abbrev set_if_present : Option Value → String → Fields → Fields
set_if_present (some _) key fs = put_field key status_500 fs
set_if_present none key fs = fs

-- The status of an error event: `status`, and `status_code` if it is there.
unfoldable pub set_status : Value → Value
set_status (object fs) =
    let gs = put_field "status" status_500 fs in
    let hs = set_if_present (find_field "status" gs) "status" gs in
    object (set_if_present (find_field "status_code" hs) "status_code" hs)
set_status v = v

abbrev error_path : String → Option (List String)
error_path kind =
    if str_eq kind "response.failed"
    then some ("response" ∷ "error" ∷ [])
    else if str_eq kind "error"
    then some ("error" ∷ [])
    else none

abbrev change_error : Option (List String) → Value → Option Value
change_error (some path) value = change_at path rewrite_error value
change_error none value = none

-- `event` between the parser and the printer, by the type of the event
unfoldable pub translate : String → Value → Option Value
translate kind value =
    let changed = change_error (error_path kind) value in
    if str_eq kind "error" then map_some set_status changed else changed

unfoldable pub event_value : Value → Option Value
event_value value = translate (text_of (index value "type")) value

abbrev pub and_also {ℓ κ} : {A : Type ℓ} {B : Type κ} → Option A → (A → Option B) → Option B
and_also (some a) f = f a
and_also none f = none

pub data Prelude : Type 0 where
  waiting started refused : Prelude

abbrev error_paths : List (List String)
error_paths = ("error" ∷ []) ∷ ("response" ∷ "error" ∷ []) ∷ []

abbrev code_paths : List (List String)
code_paths = ("error" ∷ "code" ∷ []) ∷ ("response" ∷ "error" ∷ "code" ∷ []) ∷ []

module _ (from_slice : List ℕ → Option Value) where
  module _ (to_vec : Value → Option (List ℕ)) where
    unfoldable pub event : List ℕ → Option (List ℕ)
    event bytes = and_also (from_slice bytes) λ v. and_also (event_value v) to_vec

    unfoldable pub prelude_event : List ℕ → Prelude
    prelude_event bytes = elim (from_slice bytes) [
      | none ↦ started
      | some value ↦
          if any (λ path. is_some_and permanent (pointer value path)) error_paths
          then started
          else if is_some_and (λ vs. not (is_empty vs))
                (and_also (pointer value ("response" ∷ "output" ∷ [])) as_array)
              || is_some_and (ltb 0)
                  (and_also (pointer value ("response" ∷ "usage" ∷ "output_tokens" ∷ [])) as_u64)
          then started
          else if is_some (event bytes)
              || (is_some_and (one_of ("error" ∷ "response.failed" ∷ []))
                    (as_str (index value "type"))
                  && any (λ path. is_some_and (is_text "rate_limit_exceeded") (pointer value path))
                      code_paths)
          then refused
          else if is_some_and (one_of ("response.created" ∷ "response.in_progress" ∷ []))
              (as_str (index value "type"))
          then waiting
          else started
    ]

-- Opens the translation, for the runs at concrete events.
unfoldable pub capacity_opened : Unit {0}
unfolding prelude_event event event_value translate set_status rewrite_error is_capacity
    capacity_message permanent is_security_block change_at change_field put_field strip_prefix
    contains
capacity_opened = tt
