-- ===== src/Fallback/Rules/Chains.antt =====
-- src/fallback.rs: a table that the validation accepts has no long chain and no cycle.
use mathlib.Core.Path.{subst}
use hey_proxy.Base.{
  ℕ, ◌≤◌, String, ◌≡◌, sym, ◌∙◌, inl, inr, some, List, [], ◌∷◌, Memᴰ, arith, ok, str_eq, eq_iff,
  Bool-cases, Option-cases, All,
}
use hey_proxy.Base.Text.{join, strip_prefix-join}
use hey_proxy.Fallback.Rules.{Fallbacks, canonical, lookup, targets, max_attempts, validate}
use hey_proxy.Fallback.Rules.Depth.{
  Chain, end_at, fall_back, Walk, stop, move, SourceBounded, validate_rules-Bounded,
}

-- A name without the prefix `openai/` behind its first one.
abbrev pub IsSingle : String → Type 0
IsSingle name = canonical (canonical name) ≡ canonical name

abbrev pub IsSingleRule : String × List String → Type 0
IsSingleRule (source, next) = IsSingle source × All IsSingle next

pub canonical-join : (name : String) → canonical (join "openai/" name) ≡ name
unfolding canonical
canonical-join name = rw (strip_prefix-join "openai/" name)

-- What holds of every rule holds of the rule that a lookup finds.
All-lookup :
    (P : String × List String → Type 0) (key : String) (rules : Fallbacks) (ts : List String)
    → All P rules
    → lookup key rules ≡ some ts
    → P (key, ts)
All-lookup P key [] ts a h = cc
All-lookup P key ((k, v) ∷ rules) ts (p, a) h = elim (Bool-cases (str_eq k key)) [
  | inl same ↦
      let value : v ≡ ts = ground arith in
      subst (λ x. P (x, ts)) ((eq_iff k key).0 same) (subst (λ y. P (k, y)) value p)
  | inr differs ↦ All-lookup P key rules ts a (rw differs at h)
]

All_of_Memᴰ : (P : String → Type 0) (x : String) (xs : List String) → All P xs → Memᴰ x xs → P x
All_of_Memᴰ P x [] a m = elim m [ ]
All_of_Memᴰ P x (y ∷ ys) (p, a) (Memᴰ.head e) = subst P (sym e) p
All_of_Memᴰ P x (y ∷ ys) (p, a) (Memᴰ.tail m) = All_of_Memᴰ P x ys a m

module _ (fallbacks : Fallbacks) where
  targets-canonical :
      (name : String) → IsSingle name → targets fallbacks (canonical name) ≡ targets fallbacks name
  unfolding targets
  targets-canonical name single = rw single

  -- The rule that gives a model its targets, or that there are none.
  data Found (name : String) : Type 0 where
    by_rule :
        (source : String) (next : List String)
        → lookup source fallbacks ≡ some next
        → canonical source ≡ canonical name
        → targets fallbacks name ≡ next
        → Found name
    missing : targets fallbacks name ≡ [] → Found name

  find_rule : (name : String) → IsSingle name → Found name
  unfolding targets
  find_rule name single = elim (Option-cases (lookup (canonical name) fallbacks)) [
    | inr (next, bare) ↦ by_rule (canonical name) next bare single (rw bare)
    | inl absent ↦ elim (Option-cases (lookup (join "openai/" (canonical name)) fallbacks)) [
      | inr (next, prefixed) ↦
          by_rule (join "openai/" (canonical name)) next prefixed (canonical-join (canonical name))
            (rw (absent, prefixed))
      | inl neither ↦ missing (rw (absent, neither))
    ]
  ]

  module _ (singles : All IsSingleRule fallbacks) where
    target-IsSingle :
        (name target : String)
        → IsSingle name
        → Memᴰ target (targets fallbacks name)
        → IsSingle target
    target-IsSingle name target single m = elim (find_rule name single) [
      | by_rule source next found same eq ↦
          All_of_Memᴰ IsSingle target next
            (All-lookup IsSingleRule source fallbacks next singles found).1
            (subst (Memᴰ target) eq m)
      | missing eq ↦ elim (subst (Memᴰ target) eq m) [ ]
    ]

    -- What is tried at run time is what the validation walks through.
    Walk-of_Chain :
        (name : String) (k : ℕ)
        → Chain fallbacks name k
        → IsSingle name
        → Walk fallbacks (canonical name) k
    Walk-of_Chain _ _ (end_at name) single = stop (canonical name)
    Walk-of_Chain _ _ (fall_back name target k m c) single =
        move (canonical name) target k (subst (Memᴰ target) (sym (targets-canonical name single)) m)
          (Walk-of_Chain target k c (target-IsSingle name target single m))

    Walk-le :
        (name : String) (k : ℕ)
        → IsSingle name
        → All (SourceBounded fallbacks) fallbacks
        → Walk fallbacks (canonical name) k
        → k ≤ max_attempts
    Walk-le name k single bounds w = elim (find_rule name single) [
      | by_rule source next found same eq ↦
          All-lookup (SourceBounded fallbacks) source fallbacks next bounds found k
            (subst (λ n. Walk fallbacks n k) (sym same) w)
      | missing eq ↦ short (canonical name) k (targets-canonical name single ∙ eq) w
    ]
      where
        short :
            (n : String) (j : ℕ) → targets fallbacks n ≡ [] → Walk fallbacks n j → j ≤ max_attempts
        short _ _ e (stop n) = omega arith
        short _ _ e (move n t j m v) = elim (subst (Memᴰ t) e m) [ ]

-- In a table that the validation accepts, and in which no name carries the prefix `openai/` twice,
-- at most 16 models are ever tried in a chain, from whatever requested model: so no chain runs in a
-- cycle.
pub validate-Chain-le :
    (fallbacks : Fallbacks) (name : String) (k : ℕ)
    → validate fallbacks ≡ ok tt
    → All IsSingleRule fallbacks
    → IsSingle name
    → Chain fallbacks name k
    → k ≤ max_attempts
unfolding validate
validate-Chain-le fallbacks name k accepted singles single c =
    Walk-le fallbacks singles name k single
      (validate_rules-Bounded fallbacks [] [] fallbacks (ground arith)
        (record { small = λ n d h. cc; bounds = λ n d h. cc }))
      (Walk-of_Chain fallbacks singles name k c single)
