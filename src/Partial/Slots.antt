-- ===== src/Partial/Slots.antt =====
-- src/gemini/partial.rs, `PartialCalls`: every active call has its open slot, in the same order.
use hey_proxy.Base.{
  ℕ, zero, suc, ◌<◌, ◌≤◌, ◌≡◌, refl, ap, true, false, Option, none, some, List, [], ◌∷◌, ◌++◌, ◌==◌,
  arith, ==_iff,
}
use mathlib.Core.Path.{subst}
use mathlib.Core.Option.{some-injective}
use hey_proxy.Json.{Value}
use hey_proxy.Json.Update.{map_some}
use hey_proxy.Partial.{Slot, nth, remove_at, set_at, fill, drain}

-- The slots of a queue against the active calls; the serials lie above `low`, rise, and end at `high`.
pub data Aligned (high : ℕ) : ℕ → List Slot → List (ℕ × Value) → Type 0 where
  empty : {low : ℕ} → Aligned high low [] []
  plain :
      {low : ℕ} {q : List Slot} {calls : List (ℕ × Value)} (v : Value)
      → Aligned high low q calls
      → Aligned high low ((none, some v) ∷ q) calls
  finished :
      {low : ℕ} {q : List Slot} {calls : List (ℕ × Value)} (k : ℕ) (v : Value)
      → low < k
      → k ≤ high
      → Aligned high k q calls
      → Aligned high low ((some k, some v) ∷ q) calls
  waiting :
      {low : ℕ} {q : List Slot} {calls : List (ℕ × Value)} (k : ℕ) (call : Value)
      → low < k
      → k ≤ high
      → Aligned high k q calls
      → Aligned high low ((some k, none) ∷ q) ((k, call) ∷ calls)

same_serial :
    (j k : ℕ) (c d : Value) → ◌≡◌ {A = Option (ℕ × Value)} (some (j, c)) (some (k, d)) → j ≡ k
same_serial j k c d e = ap (λ (p : ℕ × Value). p.0) (some-injective {A = ℕ × Value} (j, c) (k, d) e)

below_differs : (j k : ℕ) → j < k → (j == k) ≡ false
below_differs j k h = ground arith

module _ {high : ℕ} where
  lower :
      {low : ℕ} {q : List Slot} {calls : List (ℕ × Value)} (lowest : ℕ)
      → lowest ≤ low
      → Aligned high low q calls
      → Aligned high lowest q calls
  lower lowest h empty = empty
  lower lowest h (plain v a) = plain v (lower lowest h a)
  lower lowest h (finished k v p r a) = finished k v (omega arith) r a
  lower lowest h (waiting k c p r a) = waiting k c (omega arith) r a

  pub add_plain :
      {low : ℕ} {q : List Slot} {calls : List (ℕ × Value)} (v : Value)
      → Aligned high low q calls
      → Aligned high low (q ++ (none, some v) ∷ []) calls
  add_plain v empty = plain v empty
  add_plain v (plain w a) = plain w (add_plain v a)
  add_plain v (finished k w p r a) = finished k w p r (add_plain v a)
  add_plain v (waiting k c p r a) = waiting k c p r (add_plain v a)

  pub add_call :
      {low : ℕ} {q : List Slot} {calls : List (ℕ × Value)} (call : Value)
      → low ≤ high
      → Aligned high low q calls
      → Aligned (suc high) low (q ++ (some (suc high), none) ∷ []) (calls ++ (suc high, call) ∷ [])
  add_call call h empty = waiting (suc high) call (omega arith) (omega arith) empty
  add_call call h (plain v a) = plain v (add_call call h a)
  add_call call h (finished k v p r a) = finished k v p (omega arith) (add_call call r a)
  add_call call h (waiting k c p r a) = waiting k c p (omega arith) (add_call call r a)

  renumber :
      {low : ℕ} {q : List Slot} {calls : List (ℕ × Value)} (j k : ℕ) (call : Value)
      → j ≡ k
      → Aligned high low ((some j, none) ∷ q) ((j, call) ∷ calls)
      → Aligned high low ((some j, none) ∷ q) ((k, call) ∷ calls)
  renumber {low} {q} {calls} j k call e a =
      subst (λ x. Aligned high low ((some j, none) ∷ q) ((x, call) ∷ calls)) e a

  pub change_call :
      {low : ℕ} {q : List Slot} {calls : List (ℕ × Value)} (i k : ℕ) (old new : Value)
      → nth calls i ≡ some (k, old)
      → Aligned high low q calls
      → Aligned high low q (set_at calls i (k, new))
  change_call i k old new e empty = empty
  change_call i k old new e (plain v a) = plain v (change_call i k old new e a)
  change_call i k old new e (finished j v p r a) = finished j v p r (change_call i k old new e a)
  change_call zero k old new e (waiting j c p r a) =
      renumber j k new (same_serial j k c old e) (waiting j new p r a)
  change_call (suc i) k old new e (waiting j c p r a) =
      waiting j c p r (change_call i k old new e a)

  above :
      {low : ℕ} {q : List Slot} {calls : List (ℕ × Value)} (i k : ℕ) (call : Value)
      → nth calls i ≡ some (k, call)
      → Aligned high low q calls
      → low < k
  above i k call e empty = cc
  above i k call e (plain v a) = above i k call e a
  above i k call e (finished j v p r a) = let h = above i k call e a in omega (arith, h, p)
  above zero k call e (waiting j c p r a) =
      let is = same_serial j k c call e in omega (arith, p, is)
  above (suc i) k call e (waiting j c p r a) = let h = above i k call e a in omega (arith, h, p)

  -- The slot of an active call is found and filled, and the call is no longer waited for.
  pub fill-Aligned :
      {low : ℕ} {q : List Slot} {calls : List (ℕ × Value)} (i k : ℕ) (call v : Value)
      → nth calls i ≡ some (k, call)
      → Aligned high low q calls
      → (r : List Slot) × ((fill k v q ≡ some r) × Aligned high low r (remove_at calls i))
  unfolding fill
  fill-Aligned i k call v e empty = cc
  fill-Aligned i k call v e (plain w a) =
      let (r, (is, b)) = fill-Aligned i k call v e a in
      (_, (ap (map_some (λ q. (none, some w) ∷ q)) is, plain w b))
  fill-Aligned i k call v e (finished j w p r a) =
      let (s, (is, b)) = fill-Aligned i k call v e a in
      let differs : (j == k) ≡ false = below_differs j k (above i k call e a) in
      (
        (some j, some w) ∷ s,
        (rw differs (ap (map_some (λ q. (some j, some w) ∷ q)) is), finished j w p r b),
      )
  fill-Aligned zero k call v e (waiting j c p r a) =
      let is : (j == k) ≡ true = (==_iff j k).1 (same_serial j k c call e) in
      ((some j, some v) ∷ _, (rw is, finished j v p r a))
  fill-Aligned (suc i) k call v e (waiting j c p r a) =
      let (s, (is, b)) = fill-Aligned i k call v e a in
      let differs : (j == k) ≡ false = below_differs j k (above i k call e a) in
      (
        (some j, none) ∷ s,
        (rw differs (ap (map_some (λ q. (some j, none) ∷ q)) is), waiting j c p r b),
      )

  pub drain-Aligned :
      {low : ℕ} {q : List Slot} {calls : List (ℕ × Value)}
      → Aligned high low q calls
      → Aligned high low (drain q).1 calls
  unfolding drain
  drain-Aligned empty = empty
  drain-Aligned (plain v a) = drain-Aligned a
  drain-Aligned {low} (finished k v p r a) = lower low (omega arith) (drain-Aligned a)
  drain-Aligned (waiting k c p r a) = waiting k c p r a

  -- With no call active nothing is held back.
  pub drain-eq-nil : {low : ℕ} {q : List Slot} → Aligned high low q [] → (drain q).1 ≡ []
  unfolding drain
  drain-eq-nil empty = refl
  drain-eq-nil (plain v a) = drain-eq-nil a
  drain-eq-nil (finished k v p r a) = drain-eq-nil a
