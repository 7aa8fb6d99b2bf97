-- ===== src/Fallback/Rules/Fuel.antt =====
-- src/fallback.rs, `visit`: the recursion is never deeper than `max_attempts` names, so the model's
-- fuel does not run out.
use hey_proxy.Base.{
  ℕ, zero, suc, ◌+◌, ◌<◌, max, String, ◌≡◌, refl, ap, ◌∙◌, ◌≢◌, Bool, true, false, Option, none,
  some, List, [], ◌∷◌, arith, length, Result, ok, err, bind-ne-err, ltb,
}
use hey_proxy.Fallback.Rules.{
  Fallbacks, RulesError, canonical, lookup, member, targets, Visit, visit_targets, leave,
  out_of_fuel, enter, visit, max_attempts, visit_fuel, validate_targets, check_rule, validate_rules,
  validate,
}
use hey_proxy.Fallback.Rules.Active.{visit-active}

leave-ne-out_of_fuel : (name : String) (r : ℕ × Visit) → leave name r ≢ err out_of_fuel
leave-ne-out_of_fuel name (d, s) h = ground arith

enter-ne-out_of_fuel :
    (o : Option ℕ) (seen long : Bool) (name : String) (s : Visit)
    (walk : Result RulesError (ℕ × Visit))
    → (long ≡ false → walk ≢ err out_of_fuel)
    → enter o seen long name s walk ≢ err out_of_fuel
unfolding enter
enter-ne-out_of_fuel (some e) seen long name s walk fuelled h = cc
enter-ne-out_of_fuel none true long name s walk fuelled h = cc
enter-ne-out_of_fuel none false true name s walk fuelled h = cc
enter-ne-out_of_fuel none false false name s (err e) fuelled h = fuelled refl h
enter-ne-out_of_fuel none false false name s (ok r) fuelled h = leave-ne-out_of_fuel name r h

visit_targets-ne-out_of_fuel :
    (go : String → Visit → Result RulesError (ℕ × Visit)) (n : ℕ)
    → ((name : String) (s : Visit) (d : ℕ) (s' : Visit)
        → go name s ≡ ok (d, s')
        → s'.active ≡ s.active)
    → ((name : String) (s : Visit) → length s.active ≡ n → go name s ≢ err out_of_fuel)
    → (ts : List String) (depth : ℕ) (s : Visit) → length s.active ≡ n
    → visit_targets go ts depth s ≢ err out_of_fuel
unfolding visit_targets
visit_targets-ne-out_of_fuel go n keep fuelled [] depth s e h = cc
visit_targets-ne-out_of_fuel go n keep fuelled (t ∷ ts) depth s e h =
    bind-ne-err (go t s) _ (fuelled t s e)
      (λ (d, u) p.
        visit_targets-ne-out_of_fuel go n keep fuelled ts (max depth (1 + d)) u
          (ap length (keep t s d u p) ∙ e))
      h

-- With as much fuel as names may still become active, the model does not run out.
pub visit-ne-out_of_fuel :
    (fuel : ℕ) (fallbacks : Fallbacks) (name : String) (s : Visit)
    → max_attempts < fuel + length s.active
    → 0 < fuel
    → visit fuel fallbacks name s ≢ err out_of_fuel
unfolding visit
visit-ne-out_of_fuel zero fallbacks name s enough some_fuel = absurd (omega arith)
visit-ne-out_of_fuel (suc fuel) fallbacks name s enough some_fuel =
    enter-ne-out_of_fuel (lookup (canonical name) s.depths) (member (canonical name) s.active)
      (ltb max_attempts (suc (length s.active))) (canonical name) s _
      λ room.
        visit_targets-ne-out_of_fuel (visit fuel fallbacks) (suc (length s.active))
          (visit-active fuel fallbacks)
          (λ n t e. visit-ne-out_of_fuel fuel fallbacks n t (omega arith) (ground arith))
          (targets fallbacks (canonical name)) 1 (record s { active = canonical name ∷ s.active })
          refl

validate_targets-ne-out_of_fuel :
    (seen ts : List String) → validate_targets seen ts ≢ err out_of_fuel
unfolding validate_targets
validate_targets-ne-out_of_fuel seen [] h = cc
validate_targets-ne-out_of_fuel seen (t ∷ ts) h =
    ground (arith, validate_targets-ne-out_of_fuel (canonical t ∷ seen) ts)

check_rule-ne-out_of_fuel :
    (sources : List String) (source : String) (next : List String)
    → check_rule sources source next ≢ err out_of_fuel
unfolding check_rule
check_rule-ne-out_of_fuel sources source next h =
    ground (arith, validate_targets-ne-out_of_fuel [] next)

validate_rules-ne-out_of_fuel :
    (fallbacks : Fallbacks) (sources : List String) (depths : List (String × ℕ)) (rules : Fallbacks)
    → validate_rules fallbacks sources depths rules ≢ err out_of_fuel
unfolding validate_rules
validate_rules-ne-out_of_fuel fallbacks sources depths [] h = cc
validate_rules-ne-out_of_fuel fallbacks sources depths ((source, next) ∷ rest) h =
    let start : Visit = record { active = []; depths = depths } in
    bind-ne-err (check_rule sources source next) _ (check_rule-ne-out_of_fuel sources source next)
      (λ u p.
        bind-ne-err (visit visit_fuel fallbacks source start) _
          (visit-ne-out_of_fuel visit_fuel fallbacks source start (omega arith) (omega arith))
          (λ r q.
            validate_rules-ne-out_of_fuel fallbacks (canonical source ∷ sources) r.1.depths rest))
      h

-- The validation of a rule table never runs out of the fuel that stands for the recursion of
-- `visit`: its verdict is the source's, whatever the table.
pub validate-ne-out_of_fuel : (fallbacks : Fallbacks) → validate fallbacks ≢ err out_of_fuel
unfolding validate
validate-ne-out_of_fuel fallbacks h =
    ground (arith, validate_rules-ne-out_of_fuel fallbacks [] [] fallbacks)
