-- ===== src/Fallback/Rules/Depth.antt =====
-- src/fallback.rs: what the validation of a rule table establishes about chains of fallbacks.
use hey_proxy.Base.{
  ℕ, zero, suc, ◌+◌, ◌-◌, ◌<◌, ◌≤◌, max, String, ◌≡◌, sym, inl, inr, some, List, [], ◌∷◌, Memᴰ,
  arith, Result, ok, bind-eq-ok, str_eq, eq_iff, Bool-cases, All,
}
use mathlib.Core.Path.{subst}
use hey_proxy.Fallback.Rules.{
  Fallbacks, RulesError, canonical, lookup, targets, Visit, visit_targets, visit, max_attempts,
  visit_fuel, check_rule, validate_rules,
}
use hey_proxy.Fallback.Rules.Active.{visit-eq-ok}

module _ (fallbacks : Fallbacks) where
  -- `Chain n k`: starting at `n`, `k` models are tried, each a fallback target of the one before.
  pub data Chain : String → ℕ → Type 0 where
    end_at : (name : String) → Chain name 1
    fall_back :
        (name target : String) (k : ℕ)
        → Memᴰ target (targets fallbacks name)
        → Chain target k
        → Chain name (suc k)

  -- The paths that `visit` takes: it canonicalises every name that it reaches.
  pub data Walk : String → ℕ → Type 0 where
    stop : (name : String) → Walk name 1
    move :
        (name target : String) (k : ℕ)
        → Memᴰ target (targets fallbacks name)
        → Walk (canonical target) k
        → Walk name (suc k)

  abbrev pub Bounded : String → ℕ → Type 0
  Bounded name d = (k : ℕ) → Walk name k → k ≤ d

  pub record IsMemo (depths : List (String × ℕ)) : Type 0 where
    pub small : (name : String) (d : ℕ) → lookup name depths ≡ some d → d < suc max_attempts
    pub bounds : (name : String) (d : ℕ) → lookup name depths ≡ some d → Bounded name d

  IsMemo-cons :
      (name : String) (d : ℕ) (depths : List (String × ℕ))
      → d < suc max_attempts
      → Bounded name d
      → IsMemo depths
      → IsMemo ((name, d) ∷ depths)
  IsMemo-cons name d depths fits bounded memo = record {
    small = λ other e h. ground (arith, memo.small other e);
    bounds = λ other e h. elim (Bool-cases (str_eq name other)) [
      | inl same ↦
          let depth : d ≡ e = ground arith in
          subst (λ x. Bounded x e) ((eq_iff name other).0 same)
            (subst (λ y. Bounded name y) depth bounded)
      | inr differs ↦ memo.bounds other e (rw differs at h)
    ];
  }

  -- Walks from a target are shorter than `d`.
  abbrev Below : ℕ → String → Type 0
  Below d target = Bounded (canonical target) (d - 1) × (1 ≤ d)

  All-Below_mono : {d e : ℕ} (ts : List String) → d ≤ e → All (Below d) ts → All (Below e) ts
  All-Below_mono [] h a = tt
  All-Below_mono {d} {e} (t ∷ ts) h ((b, pos), a) =
      ((λ k w. omega (arith, b k w), omega arith), All-Below_mono ts h a)

  Below-of_Memᴰ : {d : ℕ} {t : String} (ts : List String) → All (Below d) ts → Memᴰ t ts → Below d t
  Below-of_Memᴰ [] a m = elim m [ ]
  Below-of_Memᴰ (x ∷ xs) (b, a) (Memᴰ.head e) = subst (Below _) (sym e) b
  Below-of_Memᴰ (x ∷ xs) (b, a) (Memᴰ.tail m) = Below-of_Memᴰ xs a m

  -- What a visit establishes: the depth that it returns bounds every walk.
  record Sound (name : String) (d : ℕ) (s' : Visit) : Type 0 where
    fits : d < suc max_attempts
    bounded : Bounded (canonical name) d
    memo : IsMemo s'.depths

  module _ (go : String → Visit → Result RulesError (ℕ × Visit))
      (sound : (name : String) (s : Visit) (d : ℕ) (s' : Visit)
        → go name s ≡ ok (d, s')
        → IsMemo s.depths
        → Sound name d s') where
    visit_targets-Below :
        (ts : List String) (depth : ℕ) (s : Visit) (d : ℕ) (s' : Visit)
        → visit_targets go ts depth s ≡ ok (d, s')
        → IsMemo s.depths
        → (depth ≤ d) × All (Below d) ts × IsMemo s'.depths
    unfolding visit_targets
    visit_targets-Below [] depth s d s' h memo =
        let same : s ≡ s' = ground arith in
        (ground arith, tt, subst (λ (v : Visit). IsMemo v.depths) same memo)
    visit_targets-Below (t ∷ ts) depth s d s' h memo =
        let ((e, u), first, rest) = bind-eq-ok (go t s) _ h in
        let here = sound t s e u first memo in
        let (le, below, memo') = visit_targets-Below ts (max depth (1 + e)) u d s' rest here.memo in
        (omega arith, ((λ k w. omega (arith, here.bounded k w), omega arith), below), memo')

  Bounded-of_Below :
      (name : String) (d : ℕ) → 1 ≤ d → All (Below d) (targets fallbacks name) → Bounded name d
  Bounded-of_Below name d pos a k (stop _) = pos
  Bounded-of_Below name d pos a _ (move _ t k m w) =
      let (b, _) = Below-of_Memᴰ (targets fallbacks name) a m in omega (arith, b k w)

  visit-Sound :
      (fuel : ℕ) (name : String) (s : Visit) (d : ℕ) (s' : Visit)
      → visit fuel fallbacks name s ≡ ok (d, s')
      → IsMemo s.depths
      → Sound name d s'
  unfolding visit
  visit-Sound zero name s d s' h memo = cc
  visit-Sound (suc fuel) name s d s' h memo = elim (visit-eq-ok fuel fallbacks name s d s' h) [
    | inl (known, same) ↦ record {
      fits = memo.small (canonical name) d known;
      bounded = memo.bounds (canonical name) d known;
      memo = subst (λ (v : Visit). IsMemo v.depths) (sym same) memo;
    }
    | inr (t, walk, out, room, fine, left) ↦
        let (pos, below, memo') =
          visit_targets-Below (visit fuel fallbacks) (visit-Sound fuel)
            (targets fallbacks (canonical name)) 1 (record s { active = canonical name ∷ s.active })
            d t walk memo in
        let bound = Bounded-of_Below (canonical name) d pos below in
        record {
          fits = fine;
          bounded = bound;
          memo =
              subst (λ (v : Visit). IsMemo v.depths) (sym left)
                (IsMemo-cons (canonical name) d t.depths fine bound memo');
        }
  ]

  -- Every source that the validation passes has bounded walks.
  abbrev pub SourceBounded : String × List String → Type 0
  SourceBounded (source, next) = Bounded (canonical source) max_attempts

  pub validate_rules-Bounded :
      (sources : List String) (depths : List (String × ℕ)) (rules : Fallbacks) {u : Unit {0}}
      → validate_rules fallbacks sources depths rules ≡ ok u
      → IsMemo depths
      → All SourceBounded rules
  unfolding validate_rules
  validate_rules-Bounded sources depths [] h memo = tt
  validate_rules-Bounded sources depths ((source, next) ∷ rest) h memo =
      let (_, checked, h') = bind-eq-ok (check_rule sources source next) _ h in
      let start : Visit = record { active = []; depths = depths } in
      let ((d, s'), visited, h'') = bind-eq-ok (visit visit_fuel fallbacks source start) _ h' in
      let sound = visit-Sound visit_fuel source start d s' visited memo in
      (
        (λ k w. omega (arith, sound.bounded k w, sound.fits)),
        validate_rules-Bounded (canonical source ∷ sources) s'.depths rest h'' sound.memo,
      )
