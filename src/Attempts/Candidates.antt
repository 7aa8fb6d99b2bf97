-- ===== src/Attempts/Candidates.antt =====
-- src/proxy/fallback.rs, `plan`: how many candidates there are, that no deployment is among them twice,
-- and that the rules name them.
use mathlib.Core.List.{map-append}
use mathlib.Core.Path.{subst}
use hey_proxy.Base.{
  ℕ, zero, suc, ◌+◌, ◌<◌, ◌≤◌, ◌≡◌, refl, sym, ap, ◌∙◌, ◌⊎◌, ◌≢◌, inl, inr, String, Bool, false,
  Option, none, some, List, [], ◌∷◌, ◌++◌, map, Memᴰ, ◌==◌, arith, length, length-append, is_empty,
  All, Bool-cases, Result, ok, err,
}
use hey_proxy.Fallback.Rules.{Fallbacks, max_attempts, targets}
use hey_proxy.Attempts.{
  Candidate, Identity, Planning, empty, message, out_of_fuel, Planned, is_seen, add, on_resolved,
  pop, plan_loop, plan,
}

-- Each identity is new among those before it.
pub data Distinct : List Identity → Type 0 where
  none_yet : Distinct []
  one_more :
      (seen : List Identity) (identity : Identity)
      → Distinct seen
      → is_seen identity seen ≡ false
      → Distinct (seen ++ identity ∷ [])

module _ (fallbacks : Fallbacks) (model : String) where
  -- A name is the requested model, or a rule names it for the actual model of a candidate.
  abbrev pub Origin : List Candidate → String → Type 0
  Origin cs name =
      (name ≡ model) ⊎ ((d : Candidate) × (Memᴰ d cs × Memᴰ name (targets fallbacks d.actual)))

  -- Each candidate has its origin among those before it.
  pub data Named : List Candidate → Type 0 where
    none_named : Named []
    one_named :
        (cs : List Candidate) (c : Candidate)
        → Named cs
        → Origin cs c.requested
        → Named (cs ++ c ∷ [])

  pub record IsPlan (s : Planning) : Type 0 where
    pub few : length s.candidates ≤ max_attempts
    pub distinct : Distinct s.seen
    pub identities :
        map (λ (c : Candidate). c.actual) s.candidates ≡ map (λ (i : Identity). i.0) s.seen
    pub named : Named s.candidates

  Mem-longer :
      {d : Candidate} {cs : List Candidate} (c : Candidate) → Memᴰ d cs → Memᴰ d (cs ++ c ∷ [])
  Mem-longer c (Memᴰ.head e) = Memᴰ.head e
  Mem-longer c (Memᴰ.tail m) = Memᴰ.tail (Mem-longer c m)

  Mem-last : (cs : List Candidate) (c : Candidate) → Memᴰ c (cs ++ c ∷ [])
  Mem-last [] c = Memᴰ.head refl
  Mem-last (d ∷ cs) c = Memᴰ.tail (Mem-last cs c)

  Origin-longer :
      (cs : List Candidate) (c : Candidate) (name : String)
      → Origin cs name
      → Origin (cs ++ c ∷ []) name
  Origin-longer cs c name (inl is) = inl is
  Origin-longer cs c name (inr (d, (there, names))) = inr (d, (Mem-longer c there, names))

  Origins-longer :
      (cs : List Candidate) (c : Candidate) (names : List String)
      → All (Origin cs) names
      → All (Origin (cs ++ c ∷ [])) names
  Origins-longer cs c [] h = tt
  Origins-longer cs c (name ∷ names) (o, h) =
      (Origin-longer cs c name o, Origins-longer cs c names h)

  add-IsPlan :
      (s : Planning) (requested : String) (identity : Identity)
      → IsPlan s
      → length s.candidates < max_attempts
      → is_seen identity s.seen ≡ false
      → Origin s.candidates requested
      → IsPlan (add requested identity s)
  add-IsPlan s requested identity k room new origin =
      let c : Candidate = record { requested = requested; actual = identity.0 } in
      record {
        few = omega (arith, room, length-append s.candidates (c ∷ []));
        distinct = one_more s.seen identity k.distinct new;
        identities =
            map-append (λ (d : Candidate). d.actual) s.candidates (c ∷ [])
            ∙ ap (λ names. names ++ identity.0 ∷ []) k.identities
            ∙ sym (map-append (λ (i : Identity). i.0) s.seen (identity ∷ []));
        named = one_named s.candidates c k.named origin;
      }

  -- The rules of a new candidate name all its targets.
  Origins-targets :
      (cs : List Candidate) (c : Candidate) (names : List String)
      → ((name : String) → Memᴰ name names → Memᴰ name (targets fallbacks c.actual))
      → All (Origin (cs ++ c ∷ [])) names
  Origins-targets cs c [] h = tt
  Origins-targets cs c (name ∷ names) h = (
    inr (c, (Mem-last cs c, h name (Memᴰ.head refl))),
    Origins-targets cs c names (λ other m. h other (Memᴰ.tail m)),
  )

  All-append : (P : String → Type 0) (xs ys : List String) → All P xs → All P ys → All P (xs ++ ys)
  All-append P [] ys p q = q
  All-append P (x ∷ xs) ys (p, ps) q = (p, All-append P xs ys ps q)

  -- A plan, or the refusal of a request; the fuel did not run out.
  abbrev Planned-IsPlan : Planned → Type 0
  Planned-IsPlan (ok s) = IsPlan s
  Planned-IsPlan (err (message text)) = Unit
  Planned-IsPlan (err out_of_fuel) = ⊥

  module _ (resolve : Bool → String → Result String (Option Identity)) where
    abbrev Continues : ℕ → (List String → Planning → Planned) → Type 0
    Continues fuel next =
        (pending : List String) (s : Planning)
        → IsPlan s
        → All (Origin s.candidates) pending
        → max_attempts < fuel + length s.candidates
        → Planned-IsPlan (next pending s)

    on_resolved-IsPlan :
        (fuel : ℕ) (next : List String → Planning → Planned) (skipped : Planned)
        (requested : String) (pending : List String) (s : Planning)
        (r : Result String (Option Identity))
        → Continues fuel next
        → Planned-IsPlan skipped
        → IsPlan s
        → Origin s.candidates requested
        → All (Origin s.candidates) pending
        → max_attempts < suc fuel + length s.candidates
        → length s.candidates < max_attempts
        → Planned-IsPlan (on_resolved fallbacks next skipped requested pending s r)
    on_resolved-IsPlan fuel next skipped requested pending s (err text) go skip k o os enough room =
        tt
    on_resolved-IsPlan fuel next skipped requested pending s (ok none) go skip k o os enough room =
        k
    on_resolved-IsPlan fuel next skipped requested pending s (ok (some identity)) go skip k o os
          enough room =
        elim (Bool-cases (is_seen identity s.seen)) [
          | inl seen ↦ rw seen skip
          | inr new ↦
              let c : Candidate = record { requested = requested; actual = identity.0 } in
              rw new (
                go (targets fallbacks identity.0 ++ pending) (add requested identity s)
                  (add-IsPlan s requested identity k room new o)
                  (All-append _ (targets fallbacks identity.0) pending
                    (Origins-targets s.candidates c (targets fallbacks identity.0) (λ name m. m))
                    (Origins-longer s.candidates c pending os))
                  (omega (arith, enough, length-append s.candidates (c ∷ []))))
        ]

    pop-IsPlan :
        (fuel : ℕ) (next : List String → Planning → Planned) (pending : List String) (s : Planning)
        → Continues fuel next
        → IsPlan s
        → All (Origin s.candidates) pending
        → max_attempts < suc fuel + length s.candidates
        → Planned-IsPlan (pop resolve fallbacks next pending s)
    unfolding pop
    pop-IsPlan fuel next [] s go k os enough = k
    pop-IsPlan fuel next (requested ∷ pending) s go k (o, os) enough =
        elim (Bool-cases (length s.candidates == max_attempts)) [
          | inl full ↦ rw full k
          | inr more ↦
              let room : length s.candidates < max_attempts = ground (arith, k.few) in
              rw more (
                on_resolved-IsPlan fuel next (pop resolve fallbacks next pending s) requested
                  pending s (resolve (is_empty s.candidates) requested) go
                  (pop-IsPlan fuel next pending s go k os enough) k o os enough room)
        ]

    plan_loop-IsPlan : (fuel : ℕ) → Continues fuel (plan_loop resolve fallbacks fuel)
    unfolding plan_loop
    plan_loop-IsPlan zero pending s k os enough = omega (arith, enough, k.few)
    plan_loop-IsPlan (suc fuel) pending s k os enough =
        pop-IsPlan fuel (plan_loop resolve fallbacks fuel) pending s (plan_loop-IsPlan fuel) k os
          enough

    plan_lem : Planned-IsPlan (plan resolve fallbacks (some model))
    unfolding plan
    plan_lem =
        plan_loop-IsPlan (suc max_attempts) (model ∷ []) empty
          (record { few = omega arith; distinct = none_yet; identities = refl; named = none_named })
          (inl refl, tt) (omega arith)

    -- The plan of a request for `model` has at most 16 candidates. No actual model and project are among
    -- them twice, and each name asked for is the requested model or is named by the rules for an
    -- earlier candidate.
    pub plan-IsPlan : (p : Planning) → plan resolve fallbacks (some model) ≡ ok p → IsPlan p
    plan-IsPlan p e = subst Planned-IsPlan e plan_lem

    -- The loop of `plan` ends, whatever the rules and however names are rewritten: it yields a plan, or the
    -- refusal of a rewriting.
    pub plan-ne-out_of_fuel : plan resolve fallbacks (some model) ≢ err out_of_fuel
    plan-ne-out_of_fuel e = subst Planned-IsPlan e plan_lem
