-- ===== src/Access/Bits.antt =====
-- When the exclusive or of two numbers is zero, and when their or is.
use Prim.Native.Nat.{digits, differ, bit_or, bit_xor, bit_or-bitwise, bit_xor-bitwise}
use hey_proxy.Base.{ℕ, zero, suc, ◌≤◌, ◌/◌, ◌%◌, max, ◌≡◌, refl, ap, sym, ◌∙◌, arith}

abbrev same : ℕ → ℕ
same b = b

eq_of_differ : (x y : ℕ) → differ x y ≡ 0 → x ≡ y
eq_of_differ zero y h = sym h
eq_of_differ (suc x) zero h = h
eq_of_differ (suc x) (suc y) h = ap suc (eq_of_differ x y h)

differ_self : (x : ℕ) → differ x x ≡ 0
differ_self zero = refl
differ_self (suc x) = differ_self x

eq_of_digits : (n a b : ℕ) → a ≤ n → digits same differ n a b ≡ 0 → a ≡ b
eq_of_digits zero zero b p h = sym h
eq_of_digits zero (suc a) b p h = absurd (omega (arith, p))
eq_of_digits (suc n) zero b p h = sym h
eq_of_digits (suc n) (suc a) b p h = omega (
  arith,
  h,
  eq_of_digits n (suc a / 2) (b / 2) (omega (arith, p)) (omega (arith, h)),
  eq_of_differ (suc a % 2) (b % 2) (omega (arith, h)),
)

digits_self : (n a : ℕ) → a ≤ n → digits same differ n a a ≡ 0
digits_self zero zero p = refl
digits_self zero (suc a) p = absurd (omega (arith, p))
digits_self (suc n) zero p = refl
digits_self (suc n) (suc a) p =
    omega (arith, digits_self n (suc a / 2) (omega (arith, p)), differ_self (suc a % 2))

zero_of_digits : (n a b : ℕ) → a ≤ n → digits same max n a b ≡ 0 → (a ≡ 0) × (b ≡ 0)
zero_of_digits zero zero b p h = (refl, h)
zero_of_digits zero (suc a) b p h = absurd (omega (arith, p))
zero_of_digits (suc n) zero b p h = (refl, h)
zero_of_digits (suc n) (suc a) b p h =
    let halves = zero_of_digits n (suc a / 2) (b / 2) (omega (arith, p)) (omega (arith, h)) in
    absurd (omega (arith, h, halves.0))

pub eq_of_bit_xor : (a b : ℕ) → bit_xor a b ≡ 0 → a ≡ b
eq_of_bit_xor a b h = eq_of_digits a a b (omega arith) (sym (bit_xor-bitwise a b) ∙ h)

pub bit_xor_self : (a : ℕ) → bit_xor a a ≡ 0
bit_xor_self a = bit_xor-bitwise a a ∙ digits_self a a (omega arith)

pub zero_of_bit_or : (a b : ℕ) → bit_or a b ≡ 0 → (a ≡ 0) × (b ≡ 0)
zero_of_bit_or a b h = zero_of_digits a a b (omega arith) (sym (bit_or-bitwise a b) ∙ h)
