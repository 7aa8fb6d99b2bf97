-- ===== src/Fallback/Rules/Active.antt =====
-- src/fallback.rs, `visit`: the set of names on the path is given back as it was received.
use text.Mathlib.TextPositions.{eq_refl}
use hey_proxy.Base.{
  ℕ, zero, suc, ◌+◌, ◌<◌, max, String, ◌≡◌, refl, ap, ◌∙◌, ◌⊎◌, inl, inr, Bool, true, false, Option,
  none, some, List, [], ◌∷◌, arith, length, Result, ok, err, bind-eq-ok, ltb,
}
use hey_proxy.Fallback.Rules.{
  Fallbacks, RulesError, canonical, lookup, member, targets, Visit, remove, visit_targets, enter,
  visit, max_attempts,
}

remove_of_not_member :
    (name : String) (xs : List String) → member name xs ≡ false → remove name xs ≡ xs
remove_of_not_member name [] h = refl
remove_of_not_member name (x ∷ xs) h = ground (arith, remove_of_not_member name xs)

remove-cons :
    (name : String) (xs : List String) → member name xs ≡ false → remove name (name ∷ xs) ≡ xs
remove-cons name xs h = rw (eq_refl name) (remove_of_not_member name xs h)

-- The state after `active.remove(name)` and `depths.insert(name, depth)`.
abbrev pub closed : String → ℕ → Visit → Visit
closed name depth t = record { active = remove name t.active; depths = (name, depth) ∷ t.depths }

-- What a successful `enter` did: it returned a known depth, or the walk succeeded.
pub enter-eq-ok :
    (o : Option ℕ) (seen long : Bool) (name : String) (s : Visit)
    (walk : Result RulesError (ℕ × Visit)) (d : ℕ) (s' : Visit)
    → enter o seen long name s walk ≡ ok (d, s')
    → ((o ≡ some d) × (s' ≡ s))
      ⊎ ((t : Visit) × (walk ≡ ok (d, t))
          × (seen ≡ false)
          × (long ≡ false)
          × (d < suc max_attempts)
          × (s' ≡ closed name d t))
unfolding enter
enter-eq-ok (some e) seen long name s walk d s' h = inl (ground arith, ground arith)
enter-eq-ok none true long name s walk d s' h = cc
enter-eq-ok none false true name s walk d s' h = cc
enter-eq-ok none false false name s (err e) d s' h = cc
enter-eq-ok none false false name s (ok (e, t)) d s' h =
    inr (t, ground arith, refl, refl, ground arith, ground arith)

-- What a successful `visit` did, one level down.
pub visit-eq-ok :
    (fuel : ℕ) (fallbacks : Fallbacks) (name : String) (s : Visit) (d : ℕ) (s' : Visit)
    → visit (suc fuel) fallbacks name s ≡ ok (d, s')
    → ((lookup (canonical name) s.depths ≡ some d) × (s' ≡ s))
      ⊎ ((t : Visit) × (visit_targets
              (visit fuel fallbacks)
              (targets fallbacks (canonical name))
              1
              (record s { active = canonical name ∷ s.active })
            ≡ ok (d, t))
          × (member (canonical name) s.active ≡ false)
          × (ltb max_attempts (suc (length s.active)) ≡ false)
          × (d < suc max_attempts)
          × (s' ≡ closed (canonical name) d t))
unfolding visit
visit-eq-ok fuel fallbacks name s d s' h =
    enter-eq-ok (lookup (canonical name) s.depths) (member (canonical name) s.active)
      (ltb max_attempts (suc (length s.active))) (canonical name) s
      (visit_targets (visit fuel fallbacks) (targets fallbacks (canonical name)) 1
        (record s { active = canonical name ∷ s.active }))
      d s' h

-- A successful visit gives the set of active names back.
abbrev Keeps : (String → Visit → Result RulesError (ℕ × Visit)) → Type 0
Keeps go =
    (name : String) (s : Visit) (d : ℕ) (s' : Visit) → go name s ≡ ok (d, s') → s'.active ≡ s.active

pub visit_targets-active :
    (go : String → Visit → Result RulesError (ℕ × Visit))
    → Keeps go
    → (ts : List String) (depth : ℕ) (s : Visit) (d : ℕ) (s' : Visit)
    → visit_targets go ts depth s ≡ ok (d, s')
    → s'.active ≡ s.active
unfolding visit_targets
visit_targets-active go keep [] depth s d s' h = ground arith
visit_targets-active go keep (t ∷ ts) depth s d s' h =
    let ((e, u), first, rest) = bind-eq-ok (go t s) _ h in
    cc (keep t s e u first, visit_targets-active go keep ts (max depth (1 + e)) u d s' rest)

pub visit-active :
    (fuel : ℕ) (fallbacks : Fallbacks) (name : String) (s : Visit) (d : ℕ) (s' : Visit)
    → visit fuel fallbacks name s ≡ ok (d, s')
    → s'.active ≡ s.active
unfolding visit
visit-active zero fallbacks name s d s' h = cc
visit-active (suc fuel) fallbacks name s d s' h = elim (visit-eq-ok fuel fallbacks name s d s' h) [
  | inl (known, same) ↦ ap (λ (v : Visit). v.active) same
  | inr (t, walk, out, room, fine, left) ↦
      let kept =
        visit_targets-active (visit fuel fallbacks) (visit-active fuel fallbacks)
          (targets fallbacks (canonical name)) 1 (record s { active = canonical name ∷ s.active }) d
          t walk in
      ap (λ (v : Visit). v.active) left
      ∙ ap (remove (canonical name)) kept
      ∙ remove-cons (canonical name) s.active out
]
