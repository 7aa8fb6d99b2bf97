-- ===== src/Routing/Request/Projects.antt =====
-- src/proxy.rs, `rewrite_value`: the project that a request is sent to.
use mathlib.Core.Path.{subst}
use mathlib.Core.Option.{some-injective}
use hey_proxy.Base.{
  ◌≡◌, refl, sym, ap, ◌∙◌, inl, inr, String, Bool, true, false, ◌||◌, Option, none, some, List, [],
  ◌∷◌, ◌++◌, arith, if◌then◌else◌, find, Bool-cases, Option-cases, All, str_eq, Result, ok, err,
  ◌>>=◌, ensure, ensure-eq-ok, then-eq-ok,
}
use hey_proxy.Json.{Value}
use hey_proxy.Json.Access.{or_else}
use hey_proxy.Capacity.{and_also}
use hey_proxy.Fallback.Rules.{lookup}
use hey_proxy.Guidance.{apply}
use hey_proxy.Json.Update.{map_some}
use hey_proxy.Routing.{
  ReasoningRoute, Alias, Config, matches, alias_for, unknown_default, unknown_key,
  unknown_route_key, is_known, is_project, validate_routes, validate_alias, validate_aliases,
  validate_routing,
}
use hey_proxy.Routing.Request.{
  RewriteError, Routed, requested_effort, project_or, route_of, alias_key, with_alias, with_effort,
  set_model, model_pointer, text_at, finish, rewrite_value,
}

-- The projects that an alias and its routes name are known.
abbrev KeysKnown : List String → Alias → Type 0
KeysKnown keys alias =
    (validate_routes keys alias.reasoning_routes ≡ ok tt) × (is_known keys alias.api_key ≡ true)

validate_alias-KeysKnown :
    (keys : List String) (before after : List Alias) (alias : Alias)
    → validate_alias keys before alias after ≡ ok tt
    → KeysKnown keys alias
unfolding validate_alias
validate_alias-KeysKnown keys before after alias h =
    let (h4, known) = then-eq-ok _ (ensure (is_known keys alias.api_key) unknown_key) h in
    let (h3, _) = then-eq-ok _ _ h4 in
    let (h2, _) = then-eq-ok _ _ h3 in
    let (h1, _) = then-eq-ok _ _ h2 in (h1, ensure-eq-ok _ unknown_key known)

aliases-KeysKnown :
    (keys : List String) (before rest : List Alias)
    → validate_aliases keys before rest ≡ ok tt
    → All (KeysKnown keys) rest
unfolding validate_aliases
aliases-KeysKnown keys before [] h = tt
aliases-KeysKnown keys before (alias ∷ after) h =
    let (this, others) = then-eq-ok (validate_alias keys before alias after) _ h in
    (
      validate_alias-KeysKnown keys before after alias this,
      aliases-KeysKnown keys (before ++ alias ∷ []) after others,
    )

find-All :
    (P : Alias → Type 0) (p : Alias → Bool) (xs : List Alias) (a : Alias)
    → find p xs ≡ some a
    → All P xs
    → P a
find-All P p [] a e k = cc
find-All P p (x ∷ xs) a e (here, k) = elim (Bool-cases (p x)) [
  | inl holds ↦
      subst P (some-injective x a (sym (ap (λ b. if b then some x else find p xs) holds) ∙ e)) here
  | inr fails ↦ find-All P p xs a (sym (ap (λ b. if b then some x else find p xs) fails) ∙ e) k
]

lookup-known :
    (keys : List String) (effort : String) (routes : List (String × ReasoningRoute))
    (r : ReasoningRoute)
    → validate_routes keys routes ≡ ok tt
    → lookup effort routes ≡ some r
    → is_known keys r.api_key ≡ true
unfolding validate_routes
lookup-known keys effort [] r h e = cc
lookup-known keys effort ((name, route) ∷ routes) r h e =
    let (h2, later) = then-eq-ok _ (validate_routes keys routes) h in
    let (_, known) = then-eq-ok _ (ensure (is_known keys route.api_key) unknown_route_key) h2 in
    elim (Bool-cases (str_eq name effort)) [
      | inl same ↦
          subst (λ (x : ReasoningRoute). is_known keys x.api_key ≡ true)
            (some-injective route r
              (sym (ap (λ b. if b then some route else lookup effort routes) same) ∙ e))
            (ensure-eq-ok _ unknown_route_key known)
      | inr differs ↦
          lookup-known keys effort routes r later
            (sym (ap (λ b. if b then some route else lookup effort routes) differs) ∙ e)
    ]

either-known :
    (keys : List String) (a b : Option String)
    → is_known keys a ≡ true
    → is_known keys b ≡ true
    → is_known keys (or_else a b) ≡ true
either-known keys (some k) b p q = p
either-known keys none b p q = q

alias_key-known :
    (keys : List String) (alias : Alias) (effort : Option String)
    → KeysKnown keys alias
    → is_known keys (alias_key alias (route_of alias effort)) ≡ true
alias_key-known keys alias none (routes, known) = known
alias_key-known keys alias (some effort) (routes, known) =
    elim (Option-cases (lookup effort alias.reasoning_routes)) [
      | inl no_route ↦ rw no_route known
      | inr (r, found) ↦ rw found (
          either-known keys r.api_key alias.api_key
            (lookup-known keys effort alias.reasoning_routes r routes found) known)
    ]

or_true : (a b : Bool) → a ≡ true → (a || b) ≡ true
or_true a b h = ground arith

known-is_project :
    (config : Config) (o : Option String)
    → is_project config config.default ≡ true
    → is_known config.api_keys o ≡ true
    → is_project config (project_or config.default o) ≡ true
known-is_project config none default known = default
known-is_project config (some key) default known = or_true _ _ known

-- A refusal, or a request that goes to a known project.
abbrev Routes : Config → Result RewriteError Routed → Type 0
Routes config (ok routed) = is_project config routed.1.0 ≡ true
Routes config (err e) = Unit {0}

Routes-bind :
    {A : Type 0} (config : Config) (m : Result RewriteError A) (f : A → Result RewriteError Routed)
    → ((a : A) → Routes config (f a))
    → Routes config (m >>= f)
Routes-bind config (ok a) f h = h a
Routes-bind config (err e) f h = tt

Routes-map :
    (config : Config) (m : Result RewriteError Routed) (f : Routed → Routed)
    → ((r : Routed) → (f r).1.0 ≡ r.1.0)
    → Routes config m
    → Routes config (m >>= λ r. ok (f r))
Routes-map config (ok r) f same h = ap (is_project config) (same r) ∙ h
Routes-map config (err e) f same h = tt

with_alias-Routes :
    (config : Config) (path : String) (pointer : List String) (value : Value) (o : Option Alias)
    → is_project config config.default ≡ true
    → ((a : Alias) → o ≡ some a → KeysKnown config.api_keys a)
    → Routes config (with_alias config path pointer value o)
with_alias-Routes config path pointer value none default known = default
with_alias-Routes config path pointer value (some alias) default known =
    let route = route_of alias (requested_effort path value) in
    let model = or_else (map_some (λ (r : ReasoningRoute). r.to) route) alias.to in
    let changing = with_effort path alias.reasoning (set_model pointer model value) in
    let routing : Value → Result RewriteError Routed =
      λ changed. ok (true, (project_or config.default (alias_key alias route), changed)) in
    Routes-bind config changing routing λ changed.
      known-is_project config (alias_key alias (route_of alias (requested_effort path value)))
        default
        (alias_key-known config.api_keys alias (requested_effort path value) (known alias refl))

and_also-eq-some :
    {A B : Type 0} (o : Option A) (f : A → Option B) (b : B)
    → and_also o f ≡ some b
    → (a : A) × (f a ≡ some b)
and_also-eq-some none f b e = cc
and_also-eq-some (some a) f b e = (a, e)

module _ (config : Config) (path : String) (valid : validate_routing config ≡ ok tt) where
  valid_parts :
      (is_project config config.default ≡ true) × All (KeysKnown config.api_keys) config.aliases
  unfolding validate_routing
  valid_parts =
      let (known, accepted) =
        then-eq-ok (ensure (is_project config config.default) unknown_default)
          (validate_aliases config.api_keys [] config.aliases) valid in
      (
        ensure-eq-ok _ unknown_default known,
        aliases-KeysKnown config.api_keys [] config.aliases accepted,
      )

  selected-KeysKnown :
      (m : Option String) (a : Alias)
      → and_also m (λ model. alias_for config model path) ≡ some a
      → KeysKnown config.api_keys a
  unfolding alias_for
  selected-KeysKnown m a is =
      let (model, selected) = and_also-eq-some m (λ model. alias_for config model path) a is in
      find-All (KeysKnown config.api_keys) (matches model path) config.aliases a selected
        valid_parts.1

  rewrite_value-Routes : (request : Value) → Routes config (rewrite_value config path request)
  unfolding rewrite_value
  rewrite_value-Routes request =
      let guided =
        if config.skip_blocked_security_work then apply path request else (false, request) in
      let pointer = model_pointer path guided.1 in
      let model = text_at guided.1 pointer in
      let alias = and_also model (λ model. alias_for config model path) in
      Routes-map config (with_alias config path pointer guided.1 alias) (finish guided.0 pointer)
        (λ r. refl)
        (with_alias-Routes config path pointer guided.1 alias valid_parts.0
          (selected-KeysKnown model))

-- In a configuration that the validation accepts, every request that is rewritten goes to a project with
-- an API key, or to the project `default` where there are no keys at all, whatever the request and the path.
pub rewrite_value-is_project :
    (config : Config) (path : String) (request : Value) (r : Routed)
    → validate_routing config ≡ ok tt
    → rewrite_value config path request ≡ ok r
    → is_project config r.1.0 ≡ true
rewrite_value-is_project config path request r valid e =
    subst (Routes config) e (rewrite_value-Routes config path valid request)
