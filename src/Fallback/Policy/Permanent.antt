-- ===== src/Fallback/Policy/Permanent.antt =====
-- src/fallback.rs, `permanent`: the failures that no other model can mend, described by what they are about.
use mathlib.Core.List.{map-append}
use hey_proxy.Base.{
  ℕ, String, Bool, true, ◌||◌, List, [], ◌∷◌, ◌++◌, ◌≡◌, ◌⊎◌, inl, inr, refl, sym, ap, ◌∙◌, map,
  all, any, Memᴰ, ==_refl, arith, &&-eq-true,
}
use hey_proxy.Base.Text.{codes, join, contains, starts_with, to_lower, codes-join}
use hey_proxy.Json.{Value, string}
use hey_proxy.Json.Access.{index, as_str, is_some_and, one_of}
use hey_proxy.Fallback.Policy.{permanent_codes, permanent_code, permanent, mentions}

-- What the account or the host may not do, or has used up.
abbrev pub quota_codes : List String
quota_codes =
    "insufficient_quota" ∷ "billing_hard_limit_reached" ∷ "billing_not_active"
    ∷ "credit_balance_exhausted" ∷ "organization_spend_limit_exceeded"
    ∷ "project_spend_limit_exceeded" ∷ []

abbrev pub credential_codes : List String
credential_codes =
    "invalid_api_key" ∷ "authentication_error" ∷ "permission_error" ∷ "UNAUTHENTICATED"
    ∷ "PERMISSION_DENIED" ∷ []

-- A request that would fail again.
abbrev pub request_codes : List String
request_codes =
    "invalid_prompt" ∷ "invalid_request_error" ∷ "context_length_exceeded" ∷ "INVALID_ARGUMENT"
    ∷ "NOT_FOUND" ∷ "FAILED_PRECONDITION" ∷ "OUT_OF_RANGE" ∷ "UNIMPLEMENTED" ∷ "ALREADY_EXISTS" ∷ []

abbrev pub policy_codes : List String
policy_codes =
    "content_policy_violation" ∷ "cyber_policy" ∷ "bio_policy" ∷ "misalignment_policy_violation"
    ∷ "content_filter" ∷ []

-- A code that is about one of these, or that has `security` or `safety` in it, in small letters or capitals.
pub data IsPermanentCode (code : String) : Type 0 where
  quota : Memᴰ code quota_codes → IsPermanentCode code
  credentials : Memᴰ code credential_codes → IsPermanentCode code
  request : Memᴰ code request_codes → IsPermanentCode code
  policy : Memᴰ code policy_codes → IsPermanentCode code
  security :
      (before word after : String)
      → code ≡ join before (join word after)
      → map to_lower (codes word) ≡ codes "security"
      → IsPermanentCode code
  safety :
      (before word after : String)
      → code ≡ join before (join word after)
      → map to_lower (codes word) ≡ codes "safety"
      → IsPermanentCode code

-- An error whose code, type or Gemini status is such a code.
pub data IsPermanent (error : Value) : Type 0 where
  named :
      (key code : String)
      → Memᴰ key ("code" ∷ "type" ∷ "gemini_status" ∷ [])
      → index error key ≡ string code
      → IsPermanentCode code
      → IsPermanent error

all-Mem :
    {A : Type 0} (p : A → Bool) (xs : List A) (x : A) → all p xs ≡ true → Memᴰ x xs → p x ≡ true
all-Mem p [] x h m = elim m [ ]
all-Mem p (y ∷ ys) x h (Memᴰ.head e) = ap p e ∙ (&&-eq-true (p y) (all p ys) h).0
all-Mem p (y ∷ ys) x h (Memᴰ.tail m) = all-Mem p ys x (&&-eq-true (p y) (all p ys) h).1 m

||_right : (a b : Bool) → b ≡ true → (a || b) ≡ true
||_right a b h = ground arith

any-Mem :
    {A : Type 0} (p : A → Bool) (xs : List A) (x : A) → Memᴰ x xs → p x ≡ true → any p xs ≡ true
any-Mem p [] x m h = elim m [ ]
any-Mem p (y ∷ ys) x (Memᴰ.head e) h = ap (λ b. b || any p ys) (sym (ap p e) ∙ h)
any-Mem p (y ∷ ys) x (Memᴰ.tail m) h = ||_right (p y) (any p ys) (any-Mem p ys x m h)

starts_with-append : (p s : List ℕ) → starts_with p (p ++ s) ≡ true
unfolding starts_with
starts_with-append [] s = refl
starts_with-append (c ∷ p) s = rw (==_refl c) (starts_with-append p s)

contains_of_starts_with : (p s : List ℕ) → starts_with p s ≡ true → contains p s ≡ true
unfolding contains
contains_of_starts_with p [] h = h
contains_of_starts_with p (c ∷ s) h = ap (λ b. b || contains p s) h

contains-append : (p before after : List ℕ) → contains p (before ++ (p ++ after)) ≡ true
unfolding contains
contains-append p [] after = contains_of_starts_with p (p ++ after) (starts_with-append p after)
contains-append p (c ∷ before) after =
    ||_right (starts_with p (c ∷ (before ++ (p ++ after)))) _ (contains-append p before after)

mentions-join :
    (word before inside after : String)
    → map to_lower (codes inside) ≡ codes word
    → mentions word (join before (join inside after)) ≡ true
mentions-join word before inside after e =
    let lower = map to_lower in
    let spelled : lower (codes (join before (join inside after)))
        ≡ lower (codes before) ++ (codes word ++ lower (codes after)) =
      ap lower (
        codes-join before (join inside after)
        ∙ ap (λ cs. codes before ++ cs) (codes-join inside after))
      ∙ map-append to_lower (codes before) (codes inside ++ codes after)
      ∙ ap (λ cs. lower (codes before) ++ cs) (map-append to_lower (codes inside) (codes after))
      ∙ ap (λ cs. lower (codes before) ++ (cs ++ lower (codes after))) e in
    ap (contains (codes word)) spelled
    ∙ contains-append (codes word) (lower (codes before)) (lower (codes after))

one_holds : (a b c : Bool) → (b ≡ true) ⊎ (c ≡ true) → (a || b || c) ≡ true
one_holds a b c h = ground arith

permanent_code-IsPermanentCode : (code : String) → IsPermanentCode code → permanent_code code ≡ true
unfolding permanent_code contains starts_with
permanent_code-IsPermanentCode code (quota m) = all-Mem permanent_code quota_codes code refl m
permanent_code-IsPermanentCode code (credentials m) =
    all-Mem permanent_code credential_codes code refl m
permanent_code-IsPermanentCode code (request m) = all-Mem permanent_code request_codes code refl m
permanent_code-IsPermanentCode code (policy m) = all-Mem permanent_code policy_codes code refl m
permanent_code-IsPermanentCode code (security before word after e lower) =
    one_holds (one_of permanent_codes code) (mentions "security" code) (mentions "safety" code)
      (inl (ap (mentions "security") e ∙ mentions-join "security" before word after lower))
permanent_code-IsPermanentCode code (safety before word after e lower) =
    one_holds (one_of permanent_codes code) (mentions "security" code) (mentions "safety" code)
      (inr (ap (mentions "safety") e ∙ mentions-join "safety" before word after lower))

pub permanent-IsPermanent : (error : Value) → IsPermanent error → permanent error ≡ true
unfolding permanent
permanent-IsPermanent error (named key code m e h) =
    any-Mem (λ k. is_some_and permanent_code (as_str (index error k)))
      ("code" ∷ "type" ∷ "gemini_status" ∷ []) key m
      (ap (λ v. is_some_and permanent_code (as_str v)) e ∙ permanent_code-IsPermanentCode code h)
