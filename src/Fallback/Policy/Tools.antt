-- ===== src/Fallback/Policy/Tools.antt =====
-- src/fallback.rs, `replay_blocker`: the recursion on tools decides which tools are local, and a
-- request is replayed exactly when nothing in it is bound to one deployment.
use hey_proxy.Base.{
  String, ◌≡◌, refl, ap, ◌∙◌, ◌↔◌, ◌⊎◌, inl, inr, Bool, true, false, not, ◌&&◌, Option, none, some,
  arith, str_eq, eq_iff, Bool-cases, if◌then◌else◌, &&-eq-true, &&-true, ||-eq-false, not-eq-false,
}
use hey_proxy.Json.{
  Value, null, bool, number, string, array, object, Items, nil, cons, Fields, end, field,
}
use hey_proxy.Json.Access.{get, index, find_field, or_null, as_str, is_null, is_true, is_some_and}
use hey_proxy.Fallback.Policy.{
  tool_kind, local_tool, tools_field, tools_value, all_local, names_conversation, has_hosted_tool,
  replay_blocker,
}

mutual
  -- A tool that runs at the client: a function or a custom tool, or a namespace of such tools.
  pub data IsLocal : Value → Type 0 where
    plain :
        (tool : Value) (kind : String)
        → index tool "type" ≡ string kind
        → (kind ≡ "function") ⊎ (kind ≡ "custom")
        → IsLocal tool
    namespace :
        (tool : Value) (tools : Items)
        → index tool "type" ≡ string "namespace"
        → index tool "tools" ≡ array tools
        → AreLocal tools
        → IsLocal tool

  pub data AreLocal : Items → Type 0 where
    no_tool : AreLocal nil
    a_tool :
        (tool : Value) (tools : Items) → IsLocal tool → AreLocal tools → AreLocal (cons tool tools)

-- The recursion over the fields is a lookup.
tools_field_lem : (fs : Fields) → tools_field fs ≡ tools_value (or_null (find_field "tools" fs))
unfolding local_tool
tools_field_lem end = refl
tools_field_lem (field k v fs) = elim (Bool-cases (str_eq k "tools")) [
  | inl same ↦ rw same
  | inr differs ↦ rw differs (tools_field_lem fs)
]

tool_kind-eq-true :
    (o : Option String) (nested : Bool)
    → tool_kind o nested ≡ true
    → ((kind : String) × (o ≡ some kind) × ((kind ≡ "function") ⊎ (kind ≡ "custom")))
      ⊎ ((o ≡ some "namespace") × (nested ≡ true))
tool_kind-eq-true none nested h = cc
tool_kind-eq-true (some kind) nested h =
    ground (arith, eq_iff kind "function", eq_iff kind "custom", eq_iff kind "namespace")

as_str-eq-some : (v : Value) (s : String) → as_str v ≡ some s → v ≡ string s
as_str-eq-some v s h = ground arith

tools_value-eq-true :
    (v : Value) → tools_value v ≡ true → (vs : Items) × (v ≡ array vs) × (all_local vs ≡ true)
unfolding local_tool
tools_value-eq-true (array vs) h = (vs, refl, h)
tools_value-eq-true null h = cc
tools_value-eq-true (bool b) h = cc
tools_value-eq-true (number n) h = cc
tools_value-eq-true (string s) h = cc
tools_value-eq-true (object fs) h = cc

-- `local_tool` by lookups, as the source writes it.
local_tool_lem :
    (tool : Value)
    → local_tool tool ≡ tool_kind (as_str (index tool "type")) (tools_value (index tool "tools"))
unfolding local_tool
local_tool_lem (object fs) = ap (tool_kind (as_str (index (object fs) "type"))) (tools_field_lem fs)
local_tool_lem null = refl
local_tool_lem (bool b) = refl
local_tool_lem (number n) = refl
local_tool_lem (string s) = refl
local_tool_lem (array vs) = refl

mutual
  unfolding local_tool

  local_tool_sound : (tool : Value) → local_tool tool ≡ true → IsLocal tool
  local_tool_sound (object fs) h =
      elim (tool_kind-eq-true (as_str (index (object fs) "type")) (tools_field fs) h) [
        | inl (kind, e, k) ↦ plain (object fs) kind (as_str-eq-some _ kind e) k
        | inr (e, nested) ↦
            let (vs, found, ls) = tools_field_sound fs nested in
            namespace (object fs) vs (as_str-eq-some _ "namespace" e) found ls
      ]
  local_tool_sound null h = cc
  local_tool_sound (bool b) h = cc
  local_tool_sound (number n) h = cc
  local_tool_sound (string s) h = cc
  local_tool_sound (array vs) h = cc

  tools_field_sound :
      (fs : Fields)
      → tools_field fs ≡ true
      → (vs : Items) × (or_null (find_field "tools" fs) ≡ array vs) × AreLocal vs
  tools_field_sound end h = cc
  tools_field_sound (field k v fs) h = elim (Bool-cases (str_eq k "tools")) [
    | inl same ↦ let (vs, e, ls) = tools_value_sound v (rw same at h) in (vs, rw same e, ls)
    | inr differs ↦
        let (vs, e, ls) = tools_field_sound fs (rw differs at h) in (vs, rw differs e, ls)
  ]

  tools_value_sound :
      (v : Value) → tools_value v ≡ true → (vs : Items) × (v ≡ array vs) × AreLocal vs
  tools_value_sound (array vs) h = (vs, refl, all_local_sound vs h)
  tools_value_sound null h = cc
  tools_value_sound (bool b) h = cc
  tools_value_sound (number n) h = cc
  tools_value_sound (string s) h = cc
  tools_value_sound (object fs) h = cc

  all_local_sound : (vs : Items) → all_local vs ≡ true → AreLocal vs
  all_local_sound nil h = no_tool
  all_local_sound (cons v vs) h =
      let (here, later) = &&-eq-true (local_tool v) (all_local vs) h in
      a_tool v vs (local_tool_sound v here) (all_local_sound vs later)

tool_kind_plain :
    (kind : String) (nested : Bool)
    → (kind ≡ "function") ⊎ (kind ≡ "custom")
    → tool_kind (some kind) nested ≡ true
tool_kind_plain kind nested h = ground (arith, eq_iff kind "function", eq_iff kind "custom")

tools_value-array : (vs : Items) → tools_value (array vs) ≡ all_local vs
unfolding local_tool
tools_value-array vs = refl

all_local-cons : (v : Value) (vs : Items) → all_local (cons v vs) ≡ (local_tool v && all_local vs)
unfolding local_tool
all_local-cons v vs = refl

all_local-nil : all_local nil ≡ true
unfolding local_tool
all_local-nil = refl

mutual
  local_tool_complete : (tool : Value) → IsLocal tool → local_tool tool ≡ true
  local_tool_complete _ (plain tool kind e k) =
      rw (local_tool_lem tool, e) (tool_kind_plain kind (tools_value (index tool "tools")) k)
  local_tool_complete _ (namespace tool vs e found ls) =
      rw (local_tool_lem tool, e, found) (tools_value-array vs ∙ all_local_complete vs ls)

  all_local_complete : (vs : Items) → AreLocal vs → all_local vs ≡ true
  all_local_complete _ no_tool = all_local-nil
  all_local_complete _ (a_tool v vs l ls) =
      all_local-cons v vs
      ∙ &&-true (local_tool v) (all_local vs) (local_tool_complete v l) (all_local_complete vs ls)

-- The request names no state of the deployment that answered before.
abbrev pub HasNo : String → Value → Type 0
HasNo key request = (get request key ≡ none) ⊎ (get request key ≡ some null)

abbrev pub ToolsLocal : Value → Type 0
ToolsLocal (array vs) = AreLocal vs
ToolsLocal _ = Unit

absent_iff :
    (o : Option Value)
    → (is_some_and (λ v. not (is_null v)) o ≡ false) ↔ ((o ≡ none) ⊎ (o ≡ some null))
absent_iff o = ground arith

hosted_iff : (v : Value) → (has_hosted_tool v ≡ false) ↔ ToolsLocal v
hosted_iff (array vs) =
    (λ h. all_local_sound vs (not-eq-false (all_local vs) h), λ ls. rw (all_local_complete vs ls))
hosted_iff null = (λ h. tt, λ h. refl)
hosted_iff (bool b) = (λ h. tt, λ h. refl)
hosted_iff (number n) = (λ h. tt, λ h. refl)
hosted_iff (string s) = (λ h. tt, λ h. refl)
hosted_iff (object fs) = (λ h. tt, λ h. refl)

names_conversation_iff :
    (request : Value)
    → (names_conversation request ≡ false)
      ↔ (HasNo "previous_response_id" request × HasNo "conversation" request)
unfolding names_conversation
names_conversation_iff request = (
  λ h.
      let (p, q) = ||-eq-false _ _ h in
      (
        (absent_iff (get request "previous_response_id")).0 p,
        (absent_iff (get request "conversation")).0 q,
      ),
  λ (p, q).
      rw ((absent_iff (get request "previous_response_id")).1 p)
        ((absent_iff (get request "conversation")).1 q),
)

-- Three guards in a row that all let pass.
all_pass :
    (a b c : Bool) (x y z : String)
    → (if a then some x else if b then some y else if c then some z else none) ≡ none
    → (a ≡ false) × (b ≡ false) × (c ≡ false)
all_pass a b c h = ground arith

-- A request may be replayed on another model exactly when it names no earlier response and no
-- conversation, does not run in the background, and each of its tools is a function, a custom tool,
-- or a namespace of such tools to any depth.
pub replay_blocker-eq-none_iff :
    (request : Value)
    → (replay_blocker request ≡ none) ↔ (
        HasNo "previous_response_id" request
        × HasNo "conversation" request
        × (is_true (index request "background") ≡ false)
        × ToolsLocal (index request "tools"))
unfolding replay_blocker
replay_blocker-eq-none_iff request = (
  λ h.
      let blocked : (names_conversation request ≡ false)
          × (is_true (index request "background") ≡ false)
          × (has_hosted_tool (index request "tools") ≡ false) =
        all_pass (names_conversation request) (is_true (index request "background"))
          (has_hosted_tool (index request "tools")) _ _ _ h in
      let (p, q) = (names_conversation_iff request).0 blocked.0 in
      (p, q, blocked.1, (hosted_iff (index request "tools")).0 blocked.2),
  λ (p, q, b, t).
      rw ((names_conversation_iff request).1 (p, q), b)
        (rw ((hosted_iff (index request "tools")).1 t)),
)
