-- ===== src/Fallback/Rules.antt =====
-- src/fallback.rs, the rules: lookup of a model's fallback targets and the validation of a rule
-- table. `BTreeMap` is an association list and `HashSet` a list; `bail!` returns the error.
pub mod Active
pub mod Fuel
pub mod Depth
pub mod Chains
pub mod DoublePrefix
use Prim.Native.String.{len}
use mathlib.Core.Option.{get_or}
use hey_proxy.Base.{
  ℕ, zero, suc, ◌+◌, max, String, Bool, true, false, not, ◌&&◌, ◌||◌, Option, none, some, List, [],
  ◌∷◌, ltb, leb, if◌then◌else◌, length, any, filter, Result, ok, err, ◌>>=◌, ◌>>◌, ensure, str_eq,
}
use hey_proxy.Base.Text.{codes, join, strip_prefix, is_whitespace, is_control}

abbrev pub Fallbacks : Type 0
Fallbacks = List (String × List String)

abbrev pub max_attempts : ℕ
max_attempts = 16

-- The messages of the source, one constructor each. `out_of_fuel` is the model's own.
pub data RulesError : Type 0 where
  too_many_rules bad_source too_many_targets bad_target : RulesError
  cycle : String → RulesError
  too_deep out_of_fuel : RulesError

unfoldable pub canonical : String → String
canonical model = get_or (strip_prefix "openai/" model) model

abbrev pub lookup {ℓ} : {V : Type ℓ} → String → List (String × V) → Option V
lookup key [] = none
lookup key ((k, v) ∷ m) = let rest = lookup key m in if str_eq k key then some v else rest

abbrev pub member : String → List String → Bool
member name xs = any (λ x. str_eq x name) xs

-- `.or_else(..).map(Vec::as_slice).unwrap_or(&[])`
abbrev found_or : Option (List String) → Option (List String) → List String
found_or (some ts) other = ts
found_or none (some ts) = ts
found_or none none = []

unfoldable pub targets : Fallbacks → String → List String
targets fallbacks model =
    let model' = canonical model in
    found_or (lookup model' fallbacks) (lookup (join "openai/" model') fallbacks)

abbrev is_blank : ℕ → Bool
is_blank c = is_whitespace c || is_control c

unfoldable pub valid_name : String → Bool
valid_name name =
    not (str_eq name "")
    && not (str_eq (canonical name) "")
    && leb (len name) 256
    && not (any is_blank (codes name))

pub record Visit : Type 0 where
  pub active : List String
  pub depths : List (String × ℕ)

abbrev remove : String → List String → List String
remove name xs = filter (λ x. not (str_eq x name)) xs

-- The loop over the targets: `depth.max(1 + visit(next)?)`.
unfoldable pub visit_targets :
    (String → Visit → Result RulesError (ℕ × Visit))
    → List String
    → ℕ
    → Visit
    → Result RulesError (ℕ × Visit)
visit_targets go [] depth s = ok (depth, s)
visit_targets go (next ∷ rest) depth s =
    go next s >>= λ r. visit_targets go rest (max depth (1 + r.0)) r.1

-- After the loop: the depth test, `active.remove` and `depths.insert`.
abbrev leave : String → ℕ × Visit → Result RulesError (ℕ × Visit)
leave name (depth, s) =
    if ltb max_attempts depth
    then err too_deep
    else ok (depth, record { active = remove name s.active; depths = (name, depth) ∷ s.depths })

-- The early returns of `visit`, in their order: a known depth, a name on the path, a path that is
-- too long; then the walk over the targets.
unfoldable pub enter :
    Option ℕ
    → Bool
    → Bool
    → String
    → Visit
    → Result RulesError (ℕ × Visit)
    → Result RulesError (ℕ × Visit)
enter (some depth) seen long name s walk = ok (depth, s)
enter none true long name s walk = err (cycle name)
enter none false true name s walk = err too_deep
enter none false false name s walk = walk >>= leave name

unfoldable pub visit : ℕ → Fallbacks → String → Visit → Result RulesError (ℕ × Visit)
visit zero fallbacks name s = err out_of_fuel
visit (suc fuel) fallbacks name s =
    let name' = canonical name in
    let walk =
      visit_targets (visit fuel fallbacks) (targets fallbacks name') 1
        (record s { active = name' ∷ s.active }) in
    enter (lookup name' s.depths) (member name' s.active) (ltb max_attempts (suc (length s.active)))
      name' s walk

-- `active` never holds more than `max_attempts` names on entry, so this depth of recursion is
-- enough: `Rules.Fuel`.
abbrev pub visit_fuel : ℕ
visit_fuel = suc max_attempts

-- The inner loop of `validate`, over one rule's targets.
unfoldable pub validate_targets : List String → List String → Result RulesError (Unit {0})
validate_targets seen [] = ok tt
validate_targets seen (target ∷ rest) =
    let later = validate_targets (canonical target ∷ seen) rest in
    if not (valid_name target) || member (canonical target) seen then err bad_target else later

-- The tests of one rule, before its source is visited.
unfoldable pub check_rule : List String → String → List String → Result RulesError (Unit {0})
check_rule sources source next =
    if not (valid_name source) || member (canonical source) sources
    then err bad_source
    else if leb max_attempts (length next)
    then err too_many_targets
    else validate_targets [] next

unfoldable pub validate_rules :
    Fallbacks → List String → List (String × ℕ) → Fallbacks → Result RulesError (Unit {0})
validate_rules fallbacks sources depths [] = ok tt
validate_rules fallbacks sources depths ((source, next) ∷ rest) =
    check_rule sources source next >>= λ _.
    visit visit_fuel fallbacks source (record { active = []; depths = depths }) >>= λ r.
    validate_rules fallbacks (canonical source ∷ sources) r.1.depths rest

unfoldable pub validate : Fallbacks → Result RulesError (Unit {0})
validate fallbacks =
    if ltb 1024 (length fallbacks)
    then err too_many_rules
    else validate_rules fallbacks [] [] fallbacks

-- Opens every definition above, for the runs at concrete tables.
unfoldable pub opened : Unit {0}
unfolding strip_prefix canonical targets valid_name is_whitespace is_control visit_targets enter
    visit validate_targets check_rule validate_rules validate
opened = tt
