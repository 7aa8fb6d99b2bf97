-- ===== src/Fallback/Policy/Safety.antt =====
-- src/fallback.rs: the answers that `transient_http` and `prelude_event` keep.
use hey_proxy.Base.{
  ℕ, ◌<◌, ◌≡◌, refl, ap, ◌∙◌, ◌||◌, not, ◌&&◌, ◌⊎◌, inl, inr, Bool, true, false, Option, none, some,
  List, [], ◌∷◌, arith, if◌then◌else◌,
}
use hey_proxy.Json.{Value, null, bool, string, object, array, number, unsigned, Items, cons}
use hey_proxy.Json.Access.{get, pointer, is_some_and}
use hey_proxy.Fallback.Policy.Permanent.{IsPermanent, permanent-IsPermanent}
use hey_proxy.Fallback.Policy.{
  permanent, has_output, is_filled, is_positive, transient_value, prelude_value, transient_http,
  prelude_event, on_error, error_of, by_error, Prelude, committed,
}

-- Output in the answer: an element of an output array, or a positive count of output tokens.
pub data HasOutput (value : Value) : Type 0 where
  in_response :
      (v : Value) (vs : Items)
      → pointer value ("response" ∷ "output" ∷ []) ≡ some (array (cons v vs))
      → HasOutput value
  at_top :
      (v : Value) (vs : Items)
      → pointer value ("output" ∷ []) ≡ some (array (cons v vs))
      → HasOutput value
  response_tokens :
      (n : ℕ)
      → 0 < n
      → pointer value ("response" ∷ "usage" ∷ "output_tokens" ∷ []) ≡ some (number (unsigned n))
      → HasOutput value
  tokens :
      (n : ℕ)
      → 0 < n
      → pointer value ("usage" ∷ "output_tokens" ∷ []) ≡ some (number (unsigned n))
      → HasOutput value

positive : (n : ℕ) → 0 < n → is_positive (some (number (unsigned n))) ≡ true
positive n h = ground arith

some_holds :
    (a b c d : Bool)
    → (a ≡ true) ⊎ ((b ≡ true) ⊎ ((c ≡ true) ⊎ (d ≡ true)))
    → ((a || b) || c || d) ≡ true
some_holds a b c d h = ground arith

module _ (value : Value) where
  abbrev outputs : Bool
  outputs = is_filled (pointer value ("response" ∷ "output" ∷ []))

  abbrev top_outputs : Bool
  top_outputs = is_filled (pointer value ("output" ∷ []))

  abbrev counted : Bool
  counted = is_positive (pointer value ("response" ∷ "usage" ∷ "output_tokens" ∷ []))

  abbrev top_counted : Bool
  top_counted = is_positive (pointer value ("usage" ∷ "output_tokens" ∷ []))

  has_output_holds :
      (outputs ≡ true) ⊎ ((top_outputs ≡ true) ⊎ ((counted ≡ true) ⊎ (top_counted ≡ true)))
      → has_output value ≡ true
  unfolding has_output
  has_output_holds = some_holds outputs top_outputs counted top_counted

  has_output_complete : HasOutput value → has_output value ≡ true
  has_output_complete (in_response v vs e) = has_output_holds (inl (ap is_filled e))
  has_output_complete (at_top v vs e) = has_output_holds (inr (inl (ap is_filled e)))
  has_output_complete (response_tokens n h e) =
      has_output_holds (inr (inr (inl (ap is_positive e ∙ positive n h))))
  has_output_complete (tokens n h e) =
      has_output_holds (inr (inr (inr (ap is_positive e ∙ positive n h))))

-- The error that an answer reports, the one in its response or else the one beside it, is one that no
-- other model can mend.
pub data FailsForGood (value : Value) : Type 0 where
  in_response :
      (error : Value)
      → pointer value ("response" ∷ "error" ∷ []) ≡ some error
      → IsPermanent error
      → FailsForGood value
  at_top :
      (error : Value)
      → pointer value ("response" ∷ "error" ∷ []) ≡ none
      → get value "error" ≡ some error
      → IsPermanent error
      → FailsForGood value

permanent-null : permanent null ≡ false
unfolding permanent
permanent-null = refl

error_of-FailsForGood :
    (value : Value)
    → FailsForGood value
    → (e : Value) × (error_of value ≡ some e) × (permanent e ≡ true)
unfolding error_of
error_of-FailsForGood value (in_response e p h) = (e, rw p, permanent-IsPermanent e h)
error_of-FailsForGood value (at_top e p q h) = (e, rw (p, q), permanent-IsPermanent e h)

by_error-permanent :
    (gemini : Bool) (value e : Value)
    → permanent e ≡ true
    → by_error gemini value (some e) ≡ committed
unfolding on_error
by_error-permanent gemini value null h = cc (permanent-null)
by_error-permanent gemini value (bool b) h = rw h
by_error-permanent gemini value (number n) h = rw h
by_error-permanent gemini value (string s) h = rw h
by_error-permanent gemini value (array vs) h = rw h
by_error-permanent gemini value (object fs) h = rw h

transient_of_output :
    (status : ℕ) (value : Value) → HasOutput value → transient_value status value ≡ false
unfolding transient_value
transient_of_output status value output = rw (has_output_complete value output)

prelude_of_output :
    (gemini : Bool) (value : Value)
    → HasOutput value
    → prelude_value gemini (some value) ≡ committed
unfolding prelude_value
prelude_of_output gemini value output = rw (has_output_complete value output)

-- Each part alone makes the test fail.
any_refuses : (a b c d : Bool) → (b ≡ true) ⊎ (c ≡ true) → (not a && not (b || c) && d) ≡ false
any_refuses a b c d h = ground arith

transient_of_FailsForGood :
    (status : ℕ) (value : Value) → FailsForGood value → transient_value status value ≡ false
unfolding transient_value
transient_of_FailsForGood status value (in_response e p h) =
    any_refuses (has_output value) _ _ _
      (inr (ap (is_some_and permanent) p ∙ permanent-IsPermanent e h))
transient_of_FailsForGood status value (at_top e p q h) =
    any_refuses (has_output value) _ _ _
      (inl (ap (is_some_and permanent) q ∙ permanent-IsPermanent e h))

if_same : (b : Bool) (x y : Prelude) → y ≡ x → (if b then x else y) ≡ x
if_same true x y h = refl
if_same false x y h = h

prelude_of_FailsForGood :
    (gemini : Bool) (value : Value)
    → FailsForGood value
    → prelude_value gemini (some value) ≡ committed
unfolding prelude_value
prelude_of_FailsForGood gemini value fails =
    let (e, found, h) = error_of-FailsForGood value fails in
    if_same (has_output value) committed (by_error gemini value (error_of value))
      (ap (by_error gemini value) found ∙ by_error-permanent gemini value e h)

module _ (from_slice : List ℕ → Option Value) where
  -- Whatever the status and the provider: an answer that holds output, or whose error (that of its response,
  -- or else the one at the top) is about a quota, the credentials, the request or a policy, is never taken
  -- for a refusal: neither as the body of an HTTP error nor as the first event of a stream does it let
  -- the proxy switch to another model.
  pub answer_is_kept :
      (bytes : List ℕ) (value : Value) (status : ℕ) (gemini : Bool)
      → from_slice bytes ≡ some value
      → HasOutput value ⊎ FailsForGood value
      → (transient_http from_slice status bytes ≡ false)
        × (prelude_event from_slice bytes gemini ≡ committed)
  unfolding transient_http prelude_event
  answer_is_kept bytes value status gemini parsed (inl output) =
      rw parsed (transient_of_output status value output, prelude_of_output gemini value output)
  answer_is_kept bytes value status gemini parsed (inr fails) =
      rw parsed
        (transient_of_FailsForGood status value fails, prelude_of_FailsForGood gemini value fails)
