-- ===== src/Capacity/Stream/Bounds.antt =====
-- src/proxy/capacity.rs, `Sse`: the memory of the translation.
use hey_proxy.Base.{
  ℕ, ◌<◌, inl, inr, Option, List, [], ◌∷◌, leb, length, leb-eq-false, arith, Bool-cases,
}
use hey_proxy.Capacity.Stream.{Sse, Fed, limit, push, spill, after_byte, round, feed}

spill-lt : (p : Fed) → length (spill p).0.buffer < limit
spill-lt (s, output) = elim (Bool-cases (leb limit (length s.buffer))) [
  | inl full ↦ rw full (omega arith)
  | inr fits ↦ rw fits (leb-eq-false limit (length s.buffer) fits)
]

-- The buffer never holds 1 MiB, whatever is fed.
pub buffer_bounded :
    (event : List ℕ → Option (List ℕ)) (bytes : List ℕ) (s : Sse)
    → length s.buffer < limit
    → length (feed event s bytes).0.buffer < limit
unfolding feed
buffer_bounded event [] s h = h
buffer_bounded event (b ∷ bytes) s h =
    buffer_bounded event bytes (round event s b).0
      (unfold round in spill-lt (after_byte event b (push s b)))
