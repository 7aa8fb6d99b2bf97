-- ===== src/Access/Equal.antt =====
-- The comparison of keys is equality.
use mathlib.Core.Path.{subst}
use Prim.Native.Nat.{bit_or, bit_xor}
use hey_proxy.Base.{
  ℕ, true, ◌||◌, List, [], ◌∷◌, ◌≡◌, ◌↔◌, inl, inr, refl, sym, ap, ◌∙◌, length, any, map, Memᴰ,
  ==_iff, Bool-cases, arith,
}
use hey_proxy.Access.{Keys, first_or_zero, behind_first, difference, equal, accepts}
use hey_proxy.Access.Bits.{eq_of_bit_xor, bit_xor_self, zero_of_bit_or}

-- Once a difference was found, it stays.
zero_of_difference : (diff : ℕ) (xs ys : List ℕ) → difference diff xs ys ≡ 0 → diff ≡ 0
zero_of_difference diff [] ys h = h
zero_of_difference diff (x ∷ xs) ys h =
    (zero_of_bit_or diff (bit_xor x (first_or_zero ys))
      (zero_of_difference (bit_or diff (bit_xor x (first_or_zero ys))) xs (behind_first ys) h)).0

eq_of_difference :
    (diff : ℕ) (xs ys : List ℕ) → length xs ≡ length ys → difference diff xs ys ≡ 0 → xs ≡ ys
eq_of_difference diff [] [] e h = refl
eq_of_difference diff [] (y ∷ ys) e h = absurd (omega (arith, e))
eq_of_difference diff (x ∷ xs) [] e h = absurd (omega (arith, e))
eq_of_difference diff (x ∷ xs) (y ∷ ys) e h =
    let now = bit_or diff (bit_xor x y) in
    let same : x ≡ y =
      eq_of_bit_xor x y (zero_of_bit_or diff (bit_xor x y) (zero_of_difference now xs ys h)).1 in
    ap (λ z. z ∷ xs) same ∙ ap (λ zs. y ∷ zs) (eq_of_difference now xs ys (omega (arith, e)) h)

difference_self : (xs : List ℕ) → difference 0 xs xs ≡ 0
difference_self [] = refl
difference_self (x ∷ xs) =
    ap (λ d. difference (bit_or 0 d) xs xs) (bit_xor_self x) ∙ difference_self xs

equal_iff : (a b : List ℕ) → (equal a b ≡ true) ↔ (a ≡ b)
equal_iff a b = (
  λ h.
      let total : difference (bit_xor (length a) (length b)) a b ≡ 0 = (==_iff _ 0).0 h in
      eq_of_difference (bit_xor (length a) (length b)) a b
        (eq_of_bit_xor (length a) (length b)
          (zero_of_difference (bit_xor (length a) (length b)) a b total))
        total,
  λ e.
      subst (λ c. equal a c ≡ true) e
        ((==_iff _ 0).1 (ap (λ d. difference d a a) (bit_xor_self (length a)) ∙ difference_self a)),
)

abbrev pub client_keys : List (List ℕ × List ℕ) → List (List ℕ)
client_keys clients = map (λ client. client.1) clients

known_of_any :
    (value : List ℕ) (clients : List (List ℕ × List ℕ))
    → any (λ client. equal client.1 value) clients ≡ true
    → Memᴰ value (client_keys clients)
known_of_any value [] h = cc
known_of_any value ((name, key) ∷ rest) h = elim (Bool-cases (equal key value)) [
  | inl e ↦ Memᴰ.head (sym ((equal_iff key value).0 e))
  | inr e ↦ Memᴰ.tail (
      known_of_any value rest
        (sym (ap (λ b. b || any (λ client. equal client.1 value) rest) e) ∙ h))
]

any_of_known :
    (value : List ℕ) (clients : List (List ℕ × List ℕ))
    → Memᴰ value (client_keys clients)
    → any (λ client. equal client.1 value) clients ≡ true
any_of_known value [] m = elim m [ ]
any_of_known value ((name, key) ∷ rest) (Memᴰ.head e) =
    ap (λ b. b || any (λ client. equal client.1 value) rest) ((equal_iff key value).1 (sym e))
any_of_known value ((name, key) ∷ rest) (Memᴰ.tail m) = elim (Bool-cases (equal key value)) [
  | inl e ↦ ap (λ b. b || any (λ client. equal client.1 value) rest) e
  | inr e ↦ ap (λ b. b || any (λ client. equal client.1 value) rest) e ∙ any_of_known value rest m
]

-- A value is accepted exactly when it is the local key or the key of a client, byte for byte.
pub accepts_iff :
    (keys : Keys) (value : List ℕ)
    → (accepts keys value ≡ true) ↔ Memᴰ value (keys.local ∷ client_keys keys.clients)
accepts_iff keys value =
    let own : List ℕ × List ℕ = ([], keys.local) in
    (known_of_any value (own ∷ keys.clients), any_of_known value (own ∷ keys.clients))
