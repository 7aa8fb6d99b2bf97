-- ===== src/Access.antt =====
-- src/access.rs, the comparison of an access key with those that the host knows. A text is the list of its bytes.
mod Bits
pub mod Equal
mod Examples
use Prim.Native.Nat.{bit_or, bit_xor}
use hey_proxy.Base.{ℕ, Bool, ◌||◌, List, [], ◌∷◌, length, any, ◌==◌}

pub record Keys : Type 0 where
  pub local : List ℕ
  pub clients : List (List ℕ × List ℕ)

-- `bytes.get(i).copied().unwrap_or(0)`, for the bytes from i on
abbrev pub first_or_zero : List ℕ → ℕ
first_or_zero [] = 0
first_or_zero (y ∷ ys) = y

abbrev pub behind_first : List ℕ → List ℕ
behind_first [] = []
behind_first (y ∷ ys) = ys

-- The loop over the bytes of the key.
abbrev pub difference : ℕ → List ℕ → List ℕ → ℕ
difference diff [] ys = diff
difference diff (x ∷ xs) ys =
    difference (bit_or diff (bit_xor x (first_or_zero ys))) xs (behind_first ys)

abbrev pub equal : List ℕ → List ℕ → Bool
equal a b = difference (bit_xor (length a) (length b)) a b == 0

abbrev pub accepts : Keys → List ℕ → Bool
accepts keys value = equal keys.local value || any (λ client. equal client.1 value) keys.clients
