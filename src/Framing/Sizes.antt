-- ===== src/Framing/Sizes.antt =====
-- The buffers of a scanner hold no more than the bytes that it has read.
use hey_proxy.Base.{
  ℕ, ◌+◌, ◌≤◌, ◌≡◌, ap, some, List, [], ◌∷◌, arith, length, length-append, length-but_last, inl,
  inr, Option-cases,
}
use hey_proxy.Base.Text.{strip_bytes, codes}
use hey_proxy.Framing.{map_part, strip_cr, data_part, without_space, join_part, add_line}

pub length-strip_cr : (line : List ℕ) → length (strip_cr line) ≤ length line
unfolding strip_cr
length-strip_cr line = ground (arith, length-but_last line)

length-strip_bytes : (p s r : List ℕ) → strip_bytes p s ≡ some r → length r + length p ≤ length s
unfolding strip_bytes
length-strip_bytes [] s r h = ground arith
length-strip_bytes (c ∷ p) [] r h = cc
length-strip_bytes (c ∷ p) (d ∷ s) r h = ground (arith, length-strip_bytes p s r)

length-without_space : (part : List ℕ) → length (without_space part) ≤ length part
unfolding without_space
length-without_space part = elim (Option-cases (strip_bytes (codes " ") part)) [
  | inl e ↦ rw e (omega arith)
  | inr (r, e) ↦ rw e (omega (arith, length-strip_bytes (codes " ") part r e))
]

length-join_part : (acc part : List ℕ) → length (join_part acc part) ≤ length acc + length part + 1
length-join_part [] part = omega arith
length-join_part (c ∷ cs) part = omega (arith, length-append cs (10 ∷ part))

pub length-data_part :
    (line part : List ℕ) → data_part line ≡ some part → length part + 5 ≤ length line
unfolding data_part
length-data_part line part h = elim (Option-cases (strip_bytes (codes "data:") line)) [
  | inl e ↦ cc (e, h)
  | inr (r, e) ↦
      let found : without_space r ≡ part = ground (arith, ap map_part e) in
      omega (
        arith,
        length-strip_bytes (codes "data:") line r e,
        length-without_space r,
        ap length found,
      )
]

pub length-add_line : (acc line : List ℕ) → length (add_line acc line) ≤ length acc + length line
length-add_line acc line = elim (Option-cases (data_part line)) [
  | inl e ↦ rw e (omega arith)
  | inr (part, e) ↦ rw e (omega (arith, length-data_part line part e, length-join_part acc part))
]
