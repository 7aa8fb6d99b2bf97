-- ===== src/Fallback/Scanner/Bounds.antt =====
-- src/fallback.rs, `SsePrelude::feed`: the memory of the scanner, and when it must have decided.
use mathlib.Core.Path.{subst}
use hey_proxy.Base.{
  ℕ, suc, ◌+◌, ◌<◌, ◌≤◌, ◌≡◌, refl, inl, inr, Bool, Option, List, [], ◌∷◌, ◌==◌, arith, length,
  length-append, leb, Bool-cases,
}
use hey_proxy.Framing.{strip_cr}
use hey_proxy.Framing.Sizes.{length-strip_cr, length-add_line}
use hey_proxy.Json.{Value}
use hey_proxy.Fallback.Policy.{Prelude, waiting, committed, refused}
use hey_proxy.Fallback.Scanner.{SsePrelude, new, max_prelude, end_line, advance, feed}

-- The scanner after `n` bytes: it holds no more than it has counted, it counts no more than
-- `max_prelude`, and while it waits it has counted every byte and is below that bound.
pub record IsBounded (n : ℕ) (s : SsePrelude) : Type 0 where
  pub buffers : length s.line + length s.acc ≤ s.total
  pub capped : s.total ≤ max_prelude
  pub counted : s.decision ≡ waiting → s.total ≡ n
  pub below : s.decision ≡ waiting → n < max_prelude

module _ (from_slice : List ℕ → Option Value) where
  end_line-buffers :
      (s : SsePrelude)
      → (length (end_line from_slice s).line + length (end_line from_slice s).acc
          ≤ length s.line + length s.acc)
        × ((end_line from_slice s).total ≡ s.total)
  unfolding end_line
  end_line-buffers s =
      ground (arith, length-strip_cr s.line, length-add_line s.acc (strip_cr s.line))

  advance-IsBounded :
      (n : ℕ) (s : SsePrelude) (byte : ℕ) (d : Prelude)
      → s.decision ≡ d
      → IsBounded n s
      → IsBounded (suc n) (advance from_slice d s byte)
  unfolding advance
  advance-IsBounded n s byte committed e h = record {
    buffers = h.buffers;
    capped = h.capped;
    counted = λ w. cc;
    below = λ w. cc;
  }
  advance-IsBounded n s byte refused e h = record {
    buffers = h.buffers;
    capped = h.capped;
    counted = λ w. cc;
    below = λ w. cc;
  }
  advance-IsBounded n s byte waiting e h = elim (Bool-cases (leb max_prelude (suc s.total))) [
    | inl full ↦ rw full (record {
      buffers = omega (arith, h.buffers);
      capped = ground arith;
      counted = λ w. cc;
      below = λ w. cc;
    })
    | inr room ↦ elim (Bool-cases (byte == 10)) [
      | inl newline ↦
          let (fits, same) = end_line-buffers (record s { total = suc s.total }) in
          rw (room, newline)
            (record {
              buffers = omega (arith, h.buffers, fits, same);
              capped = ground (arith, same);
              counted = λ w. omega (arith, same, h.counted e);
              below = λ w. ground (arith, h.counted e);
            })
      | inr other ↦
          rw (room, other)
            (record {
              buffers = omega (arith, h.buffers, length-append s.line (byte ∷ []));
              capped = ground arith;
              counted = λ w. omega (arith, h.counted e);
              below = λ w. ground (arith, h.counted e);
            })
    ]
  ]

  feed-IsBounded :
      (bytes : List ℕ) (n : ℕ) (s : SsePrelude)
      → IsBounded n s
      → IsBounded (length bytes + n) (feed from_slice s bytes)
  unfolding feed
  feed-IsBounded [] n s h = let here : n ≡ 0 + n = omega arith in subst (λ k. IsBounded k s) here h
  feed-IsBounded (byte ∷ bytes) n s h =
      let there : length bytes + suc n ≡ suc (length bytes) + n = omega arith in
      subst (λ k. IsBounded k (feed from_slice (advance from_slice s.decision s byte) bytes)) there
        (feed-IsBounded bytes (suc n) (advance from_slice s.decision s byte)
          (advance-IsBounded n s byte s.decision refl h))

  new-IsBounded :
      (gemini : Bool) (bytes : List ℕ)
      → IsBounded (length bytes + 0) (feed from_slice (new gemini) bytes)
  new-IsBounded gemini bytes = feed-IsBounded bytes 0 (new gemini) (record {
    buffers = omega arith;
    capped = omega arith;
    counted = λ w. refl;
    below = λ w. omega arith;
  })

  -- Whatever bytes arrive, the scanner counts at most 256 KiB and buffers at most what it has counted.
  pub feed_bounded :
      (gemini : Bool) (bytes : List ℕ)
      → let s = feed from_slice (new gemini) bytes in
        (length s.line + length s.acc ≤ s.total) × (s.total ≤ max_prelude)
  feed_bounded gemini bytes = let h = new-IsBounded gemini bytes in (h.buffers, h.capped)

  -- A scanner that is still waiting has counted each byte, and was given less than 256 KiB: after that
  -- many bytes it has decided.
  pub waiting_below :
      (gemini : Bool) (bytes : List ℕ)
      → (feed from_slice (new gemini) bytes).decision ≡ waiting
      → ((feed from_slice (new gemini) bytes).total ≡ length bytes) × (length bytes < max_prelude)
  waiting_below gemini bytes waits =
      let h = new-IsBounded gemini bytes in
      (omega (arith, h.counted waits), omega (arith, h.below waits))
