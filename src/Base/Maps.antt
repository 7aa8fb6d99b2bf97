-- ===== src/Base/Maps.antt =====
-- `BTreeMap<u64, V>`: a list of entries in the order of their keys, with the facts that its clients
-- use about predicates on the entries.
use Prim.Native.Nat.{ℕ, suc}
use mathlib.Core.Path.{◌≡◌, refl, ap}
use mathlib.Core.Logic.{inl, inr}
use mathlib.Core.Option.{Option, none, some}
use mathlib.Core.Bool.{Bool, false}
use mathlib.Core.List.{List, [], ◌∷◌}
use native.Mathlib.Omega.{arith}
use hey_proxy.Base.Tests.{ltb, ◌==◌, ==_refl, if◌then◌else◌, Bool-cases}
use hey_proxy.Base.Lists.{All, length}

abbrev pub Entry {ℓ} : Type ℓ → Type ℓ
Entry V = ℕ × V

module _ {ℓ} {V : Type ℓ} where
  -- `map.get(&key)`
  unfoldable pub lookup : ℕ → List (Entry V) → Option V
  lookup key [] = none
  lookup key ((k, v) ∷ rest) = let found = lookup key rest in if k == key then some v else found

  -- `map.insert(key, value)`, and a write through `get_mut`
  unfoldable pub insert : ℕ → V → List (Entry V) → List (Entry V)
  insert key v [] = (key, v) ∷ []
  insert key v ((k, w) ∷ rest) =
      let inserted = insert key v rest in
      if k == key
      then (key, v) ∷ rest
      else if ltb key k
      then (key, v) ∷ (k, w) ∷ rest
      else (k, w) ∷ inserted

  -- `map.values()`
  abbrev pub values : List (Entry V) → List V
  values [] = []
  values ((k, v) ∷ rest) = v ∷ values rest

  pub All-insert {κ} :
      (P : Entry V → Type κ) (key : ℕ) (v : V) (m : List (Entry V))
      → P (key, v)
      → All P m
      → All P (insert key v m)
  unfolding insert
  All-insert P key v [] p h = (p, tt)
  All-insert P key v ((k, w) ∷ rest) p h = elim (Bool-cases (k == key)) [
    | inl same ↦ rw same (p, h.1)
    | inr differs ↦ rw differs (elim (Bool-cases (ltb key k)) [
      | inl before ↦ rw before (p, h)
      | inr behind ↦ rw behind (h.0, All-insert P key v rest p h.1)
    ])
  ]

  pub All-lookup {κ} :
      (P : V → Type κ) (key : ℕ) (m : List (Entry V)) (v : V)
      → All (λ e. P e.1) m
      → lookup key m ≡ some v
      → P v
  unfolding lookup
  All-lookup P key [] v h e = cc
  All-lookup P key ((k, w) ∷ rest) v h e = elim (Bool-cases (k == key)) [
    | inl same ↦ ground (arith, h.0)
    | inr differs ↦ All-lookup P key rest v h.1 (ground arith)
  ]

  pub lookup-insert_self :
      (key : ℕ) (v : V) (m : List (Entry V)) → lookup key (insert key v m) ≡ some v
  unfolding lookup insert
  lookup-insert_self key v [] = rw (==_refl key) refl
  lookup-insert_self key v ((k, w) ∷ rest) = elim (Bool-cases (k == key)) [
    | inl same ↦ rw (same, ==_refl key) refl
    | inr differs ↦ rw differs (elim (Bool-cases (ltb key k)) [
      | inl before ↦ rw (before, ==_refl key) refl
      | inr behind ↦ rw (behind, differs) (lookup-insert_self key v rest)
    ])
  ]

-- A hash map by its entries.
unfoldable pub find_key : {K V : Type 0} → (K → K → Bool) → K → List (K × V) → Option V
find_key same key [] = none
find_key same key ((k, v) ∷ rest) =
    let found = find_key same key rest in if same k key then some v else found

unfoldable pub put_key : {K V : Type 0} → (K → K → Bool) → K → V → List (K × V) → List (K × V)
put_key same key v [] = (key, v) ∷ []
put_key same key v ((k, w) ∷ rest) =
    let put = put_key same key v rest in if same k key then (key, v) ∷ rest else (k, w) ∷ put

module _ {V : Type 0} (key : ℕ) (v : V) where
  pub find_key-put_key : (m : List (ℕ × V)) → find_key ◌==◌ key (put_key ◌==◌ key v m) ≡ some v
  unfolding find_key put_key
  find_key-put_key [] = rw (==_refl key) refl
  find_key-put_key ((k, w) ∷ rest) = elim (Bool-cases (k == key)) [
    | inl same ↦ rw (same, ==_refl key) refl
    | inr differs ↦ rw (differs, differs) (find_key-put_key rest)
  ]

  pub find_key-put_key_other :
      (j : ℕ) (m : List (ℕ × V))
      → (key == j) ≡ false
      → find_key ◌==◌ j (put_key ◌==◌ key v m) ≡ find_key ◌==◌ j m
  unfolding find_key put_key
  find_key-put_key_other j [] ne = rw ne refl
  find_key-put_key_other j ((k, w) ∷ rest) ne = elim (Bool-cases (k == key)) [
    | inl same ↦ let k_ne : (k == j) ≡ false = ground (arith, same, ne) in rw (same, ne, k_ne) refl
    | inr differs ↦
        rw differs (ap (λ r. if k == j then some w else r) (find_key-put_key_other j rest ne))
  ]

  pub length-put_key_new :
      (m : List (ℕ × V))
      → find_key ◌==◌ key m ≡ none
      → length (put_key ◌==◌ key v m) ≡ suc (length m)
  unfolding find_key put_key
  length-put_key_new [] h = refl
  length-put_key_new ((k, w) ∷ rest) h = elim (Bool-cases (k == key)) [
    | inl same ↦ absurd (ground (arith, same, h))
    | inr differs ↦
        let below : find_key ◌==◌ key rest ≡ none = ground (arith, differs, h) in
        rw differs (ap suc (length-put_key_new rest below))
  ]

  pub length-put_key_old :
      (m : List (ℕ × V)) (w : V)
      → find_key ◌==◌ key m ≡ some w
      → length (put_key ◌==◌ key v m) ≡ length m
  unfolding find_key put_key
  length-put_key_old [] w h = cc
  length-put_key_old ((k, x) ∷ rest) w h = elim (Bool-cases (k == key)) [
    | inl same ↦ rw same refl
    | inr differs ↦ rw differs (ap suc (length-put_key_old rest w (ground (arith, differs, h))))
  ]
