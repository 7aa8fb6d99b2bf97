-- ===== src/Routing.antt =====
-- src/config.rs, the aliases: which one a model and a path select, and what `validate_routing` demands
-- of them. Keys are the names of the projects in `api_keys`.
pub mod Unique
pub mod Request
mod Examples
use Prim.Native.Char.{code}
use Prim.Native.String
use hey_proxy.Base.{
  ℕ, String, Bool, true, false, not, ◌&&◌, ◌||◌, Option, none, some, List, [], ◌∷◌, ◌++◌, ◌==◌,
  if◌then◌else◌, any, all, find, is_empty, str_eq, Result, ok, err, ◌>>◌, ensure,
}
use hey_proxy.Base.Text.{codes, is_whitespace}
use hey_proxy.Json.Access.{one_of, is_some_and}
use hey_proxy.Guidance.{trim_slashes}
use hey_proxy.Fallback.Rules.{member}

pub data ApiShape : Type 0 where
  responses chat_completions messages completions : ApiShape

abbrev pub same_shape : ApiShape → ApiShape → Bool
same_shape responses responses = true
same_shape chat_completions chat_completions = true
same_shape messages messages = true
same_shape completions completions = true
same_shape _ _ = false

-- `==` on `Option<ApiShape>`
abbrev pub same_shapes : Option ApiShape → Option ApiShape → Bool
same_shapes (some a) (some b) = same_shape a b
same_shapes none none = true
same_shapes _ _ = false

unfoldable pub from_path : String → Option ApiShape
from_path path =
    let trimmed = trim_slashes path in
    if one_of ("/v1/responses" ∷ "/responses" ∷ "/v1/responses/compact" ∷ "/responses/compact" ∷ [])
      trimmed
    then some responses
    else if one_of
        ("/v1/chat/completions" ∷ "/chat/completions" ∷ "/v1/custom/chat/completions" ∷ []) trimmed
    then some chat_completions
    else if one_of ("/v1/completions" ∷ "/completions" ∷ []) trimmed
    then some completions
    else if one_of
        ("/v1/custom/messages" ∷ "/custom/v1/messages" ∷ "/v1/custom/messages/count_tokens"
          ∷ "/custom/v1/messages/count_tokens" ∷ [])
        trimmed
    then some messages
    else none

pub record ReasoningRoute : Type 0 where
  pub to : String
  pub api_key : Option String

pub record Alias : Type 0 where
  pub api_shape : Option ApiShape
  pub reasoning_routes : List (String × ReasoningRoute)
  pub from : String
  pub to : Option String
  pub reasoning : Option String
  pub api_key : Option String

-- What routing reads of the configuration.
pub record Config : Type 0 where
  pub api_keys : List String
  pub default : String  -- `default.api_key` in the source
  pub aliases : List Alias
  pub skip_blocked_security_work : Bool

abbrev pub is_none : Option ApiShape → Bool
is_none none = true
is_none (some _) = false

abbrev pub matches_shape : Alias → String → Bool
matches_shape alias path = is_none alias.api_shape || same_shapes alias.api_shape (from_path path)

abbrev pub matches : String → String → Alias → Bool
matches model path alias = str_eq alias.from model && matches_shape alias path

unfoldable pub alias_for : Config → String → String → Option Alias
alias_for config model path = find (matches model path) config.aliases

pub data RoutingError : Type 0 where
  unknown_default empty_route unknown_route_key not_unique overlapping empty_alias unknown_key :
      RoutingError

-- `text.trim().is_empty()`
abbrev pub is_blank : String → Bool
is_blank text = all is_whitespace (codes text)

abbrev pub is_known : List String → Option String → Bool
is_known keys (some key) = member key keys
is_known keys none = true

unfoldable pub validate_routes :
    List String → List (String × ReasoningRoute) → Result RoutingError (Unit {0})
validate_routes keys [] = ok tt
validate_routes keys ((effort, route) ∷ routes) =
    ensure (not (is_blank effort || is_blank route.to)) empty_route
    >> ensure (is_known keys route.api_key) unknown_route_key
    >> validate_routes keys routes

-- `seen` holds the names and shapes of the aliases before this one.
abbrev pub is_taken : Alias → List Alias → Bool
is_taken alias seen =
    any
      (λ (other : Alias).
        str_eq other.from alias.from && same_shapes other.api_shape alias.api_shape)
      seen

abbrev pub overlaps : Alias → List Alias → Bool
overlaps alias others =
    any
      (λ (other : Alias).
        str_eq alias.from other.from && (is_none alias.api_shape || is_none other.api_shape))
      others

-- The loop over the aliases: `before` and `after` are the others.
unfoldable pub validate_alias :
    List String → List Alias → Alias → List Alias → Result RoutingError (Unit {0})
validate_alias keys before alias after =
    validate_routes keys alias.reasoning_routes
    >> ensure (not (str_eq alias.from "" || is_taken alias before)) not_unique
    >> ensure (not (overlaps alias (before ++ after))) overlapping
    >> ensure (not (is_some_and is_blank alias.to || is_some_and is_blank alias.reasoning))
        empty_alias
    >> ensure (is_known keys alias.api_key) unknown_key

unfoldable pub validate_aliases :
    List String → List Alias → List Alias → Result RoutingError (Unit {0})
validate_aliases keys before [] = ok tt
validate_aliases keys before (alias ∷ after) =
    validate_alias keys before alias after >> validate_aliases keys (before ++ alias ∷ []) after

-- A project that requests may be sent to.
abbrev pub is_project : Config → String → Bool
is_project config key =
    member key config.api_keys || (is_empty config.api_keys && str_eq key "default")

unfoldable pub validate_routing : Config → Result RoutingError (Unit {0})
validate_routing config =
    ensure (is_project config config.default) unknown_default
    >> validate_aliases config.api_keys [] config.aliases

-- Opens the validation, for the runs at concrete configurations.
unfoldable pub routing_opened : Unit {0}
unfolding validate_routing validate_aliases validate_alias validate_routes is_whitespace alias_for
    from_path trim_slashes
routing_opened = tt
