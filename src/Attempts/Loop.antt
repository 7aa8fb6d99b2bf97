-- ===== src/Attempts/Loop.antt =====
-- src/proxy/fallback.rs, `forward`: which attempt answers the request.
use mathlib.Core.Path.{subst}
use hey_proxy.Base.{
  ℕ, suc, ◌+◌, ◌≡◌, refl, ap, ◌∙◌, ◌⊎◌, inl, inr, String, true, false, Option, none, some, List, [],
  ◌∷◌, ◌++◌, arith, if◌then◌else◌, length, is_empty-eq-true, Bool-cases,
}
use hey_proxy.Attempts.{Candidate, is_final, attempts}

is_final-cases :
    (r : Option String) (cs : List Candidate) → is_final r cs ≡ true → (r ≡ none) ⊎ (cs ≡ [])
is_final-cases none cs h = inl refl
is_final-cases (some reason) cs h = inr (is_empty-eq-true cs h)

is_final-reason :
    (r : Option String) (cs : List Candidate)
    → is_final r cs ≡ false
    → (reason : String) × (r ≡ some reason)
is_final-reason none cs h = cc
is_final-reason (some reason) cs h = (reason, refl)

is_final-last : (r : Option String) → is_final r [] ≡ true
is_final-last none = refl
is_final-last (some reason) = refl

module _ {Response : Type 0} (attempt : ℕ → Candidate → Response × Option String) where
  -- The candidates from `index` on were all refused.
  abbrev pub Refused : ℕ → List Candidate → Type 0
  Refused index [] = Unit {0}
  Refused index (c ∷ cs) =
      ((reason : String) × ((attempt index c).1 ≡ some reason)) × Refused (suc index) cs

  -- How the loop over `cs` from `index` ends.
  pub record IsAnswered (index : ℕ) (cs : List Candidate) : Type 0 where
    pub before : List Candidate
    pub answering : Candidate
    pub after : List Candidate
    pub parts : cs ≡ before ++ answering ∷ after
    pub refused : Refused index before
    pub final : ((attempt (index + length before) answering).1 ≡ none) ⊎ (after ≡ [])
    pub result :
        attempts attempt index cs
        ≡ some ((attempt (index + length before) answering).0, index + length before)

  first :
      (index : ℕ) (c : Candidate) (cs : List Candidate)
      → is_final (attempt index c).1 cs ≡ true
      → IsAnswered index (c ∷ cs)
  unfolding attempts
  first index c cs is =
      let here : index ≡ index + 0 = omega arith in
      record {
        before = [];
        answering = c;
        after = cs;
        parts = refl;
        refused = tt;
        final =
            subst (λ k. ((attempt k c).1 ≡ none) ⊎ (cs ≡ [])) here
              (is_final-cases (attempt index c).1 cs is);
        result =
            ap
              (λ b.
                if b then some ((attempt index c).0, index) else attempts attempt (suc index) cs)
              is
            ∙ ap (λ k. some ((attempt k c).0, k)) here;
      }

  later :
      (index : ℕ) (c : Candidate) (cs : List Candidate)
      → is_final (attempt index c).1 cs ≡ false
      → IsAnswered (suc index) cs
      → IsAnswered index (c ∷ cs)
  unfolding attempts
  later index c cs refuses a =
      let there : suc index + length a.before ≡ index + suc (length a.before) = omega arith in
      record {
        before = c ∷ a.before;
        answering = a.answering;
        after = a.after;
        parts = ap (λ ds. c ∷ ds) a.parts;
        refused = (is_final-reason (attempt index c).1 cs refuses, a.refused);
        final = subst (λ k. ((attempt k a.answering).1 ≡ none) ⊎ (a.after ≡ [])) there a.final;
        result =
            ap
              (λ b.
                if b then some ((attempt index c).0, index) else attempts attempt (suc index) cs)
              refuses
            ∙ a.result
            ∙ ap (λ k. some ((attempt k a.answering).0, k)) there;
      }

  -- The loop over at least one candidate always returns a response. Every candidate before the answering
  -- one was refused; the answering one was not refused, or it is the last.
  pub attempts-IsAnswered :
      (index : ℕ) (c : Candidate) (cs : List Candidate) → IsAnswered index (c ∷ cs)
  attempts-IsAnswered index c [] = first index c [] (is_final-last (attempt index c).1)
  attempts-IsAnswered index c (d ∷ cs) = elim (Bool-cases (is_final (attempt index c).1 (d ∷ cs))) [
    | inl is ↦ first index c (d ∷ cs) is
    | inr refuses ↦ later index c (d ∷ cs) refuses (attempts-IsAnswered (suc index) d cs)
  ]
