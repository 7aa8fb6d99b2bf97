-- ===== src/Fallback/Rules/DoublePrefix.antt =====
-- src/fallback.rs: a name that carries the prefix `openai/` twice escapes the search for cycles,
-- since `visit` canonicalises it once and `targets` canonicalises the result again.
use Prim.Native.String.{count}
use text.Mathlib.TextLemmas.{length-append}
use text.Mathlib.TextPositions.{eq_refl}
use hey_proxy.Base.{
  ℕ, zero, suc, String, ◌≡◌, refl, ap, true, false, [], ◌∷◌, Memᴰ, arith, ok, str_eq, eq_iff,
  Bool-cases, inl, inr, ◌≢◌,
}
use hey_proxy.Base.Text.{join}
use hey_proxy.Fallback.Rules.{
  Fallbacks, targets, valid_name, visit, visit_targets, enter, check_rule, validate_targets,
  validate_rules, validate,
}
use hey_proxy.Fallback.Rules.Depth.{Chain, end_at, fall_back}
use hey_proxy.Fallback.Rules.Chains.{canonical-join}

abbrev pub twice : String → String
twice name = join "openai/" (join "openai/" name)

abbrev pub self_loop : String → Fallbacks
self_loop name = (twice name, twice name ∷ []) ∷ []

str_eq_of_ne : (a b : String) → a ≢ b → str_eq a b ≡ false
str_eq_of_ne a b h = elim (Bool-cases (str_eq a b)) [
  | inl same ↦ absurd (h ((eq_iff a b).0 same))
  | inr differs ↦ differs
]

join-ne : (name : String) → join "openai/" name ≢ name
join-ne name h = omega (arith, ap count h, length-append "openai/" name)

twice-ne : (name : String) → twice name ≢ name
twice-ne name h =
    omega (
      arith,
      ap count h,
      length-append "openai/" (join "openai/" name),
      length-append "openai/" name,
    )

no_targets : (name : String) → targets (self_loop name) (join "openai/" name) ≡ []
unfolding targets
no_targets name =
    rw (canonical-join name, str_eq_of_ne (twice name) name (twice-ne name))
      (rw (str_eq_of_ne (twice name) (join "openai/" name) (join-ne (join "openai/" name))))

own_target : (name : String) → targets (self_loop name) (twice name) ≡ twice name ∷ []
unfolding targets
own_target name =
    rw
      (
        canonical-join (join "openai/" name),
        str_eq_of_ne (twice name) (join "openai/" name) (join-ne (join "openai/" name)),
      )
      (rw (eq_refl (twice name)))

chains : (name : String) (k : ℕ) → Chain (self_loop name) (twice name) (suc k)
chains name zero = end_at (twice name)
chains name (suc k) =
    fall_back (twice name) (twice name) (suc k) (rw (own_target name) (Memᴰ.head refl))
      (chains name k)

accepted : (name : String) → valid_name (twice name) ≡ true → validate (self_loop name) ≡ ok tt
unfolding validate validate_rules check_rule validate_targets visit enter visit_targets
accepted name valid = rw (valid, canonical-join (join "openai/" name), no_targets name)

-- The table whose one rule lets `openai/openai/<name>` fall back on itself passes the validation,
-- for every name that fits, and yet gives chains of every length.
pub self_loop-accepted :
    (name : String)
    → valid_name (twice name) ≡ true
    → (validate (self_loop name) ≡ ok tt) × ((k : ℕ) → Chain (self_loop name) (twice name) (suc k))
self_loop-accepted name valid = (accepted name valid, chains name)
