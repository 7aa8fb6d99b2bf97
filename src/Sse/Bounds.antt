-- ===== src/Sse/Bounds.antt =====
-- src/proxy/sse.rs: the memory of the decoder.
use mathlib.Core.Path.{subst}
use hey_proxy.Base.{
  ℕ, suc, ◌+◌, ◌≤◌, ◌≡◌, ap, inl, inr, true, false, Option, none, some, List, [], ◌∷◌, ◌++◌, ok,
  err, arith, length, length-append, Bool-cases, Option-cases, ◌==◌, ◌&&◌, ◌||◌, ltb, is_empty,
  is_empty-eq-true, but_last,
}
use hey_proxy.Base.Text.{codes, equal_bytes}
use hey_proxy.Base.Utf8.{is_utf8}
use hey_proxy.Framing.{data_part}
use hey_proxy.Framing.Sizes.{length-data_part}
use hey_proxy.Json.{Value}
use hey_proxy.Sse.{
  SseDecoder, Decoded, fresh, max_frame, parsed, with_data, behind, and_then, dispatch, end_line,
  step, feed_bytes, feed,
}

-- The buffers hold no more than the bytes of the frame that have been counted, at most 16 MiB.
pub record IsBounded (s : SseDecoder) : Type 0 where
  pub buffers : length s.line + length s.acc ≤ s.frame_bytes
  pub capped : s.frame_bytes ≤ max_frame

-- A result that is either an error or a bounded decoder.
abbrev Bounded : Decoded → Type 0
Bounded (ok (s, es)) = IsBounded s
Bounded (err e) = Unit

Bounded-and_then :
    (m : Decoded) (k : SseDecoder → Decoded)
    → Bounded m
    → ((s : SseDecoder) → IsBounded s → Bounded (k s))
    → Bounded (and_then m k)
Bounded-and_then (err e) k h next = tt
Bounded-and_then (ok (s, es)) k h next = go (k s) (next s h)
  where
    go : (m : Decoded) → Bounded m → Bounded (behind es m)
    go (ok (t, fs)) b = b
    go (err e) b = tt

length-with_data :
    (acc line : List ℕ) → length (with_data acc (data_part line)) ≤ length acc + length line
length-with_data acc line = elim (Option-cases (data_part line)) [
  | inl e ↦ rw e (omega arith)
  | inr (part, e) ↦ rw e (
      omega (
        arith,
        length-data_part line part e,
        length-append acc (part ++ 10 ∷ []),
        length-append part (10 ∷ []),
      ))
]

module _ (from_slice : List ℕ → Option Value) where
  parsed-Bounded : (s : SseDecoder) (o : Option Value) → IsBounded s → Bounded (parsed s o)
  parsed-Bounded s none h = tt
  parsed-Bounded s (some v) h = h

  dispatch-Bounded : (s : SseDecoder) → is_empty s.line ≡ true → Bounded (dispatch from_slice s)
  unfolding dispatch
  dispatch-Bounded s e =
      let blank = ap length (is_empty-eq-true s.line e) in
      elim (Bool-cases (is_empty (but_last s.acc))) [
        | inl nothing ↦ rw nothing (record { buffers = omega (arith, blank); capped = omega arith })
        | inr event ↦ elim (Bool-cases (equal_bytes (but_last s.acc) (codes "[DONE]"))) [
          | inl last ↦
              rw (event, last) (record { buffers = omega (arith, blank); capped = omega arith })
          | inr other ↦ elim (Bool-cases s.done) [
            | inl late ↦ rw (event, other, late) tt
            | inr early ↦
                rw (event, other, early)
                  (parsed-Bounded (record s { acc = []; frame_bytes = 0; done = false })
                    (from_slice (but_last s.acc))
                    (record { buffers = omega (arith, blank); capped = omega arith }))
          ]
        ]
      ]

  end_line-Bounded : (s : SseDecoder) → IsBounded s → Bounded (end_line from_slice s)
  unfolding end_line
  end_line-Bounded s h = elim (Bool-cases (is_empty s.line)) [
    | inl blank ↦ rw blank (dispatch-Bounded s blank)
    | inr field ↦ elim (Bool-cases (is_utf8 s.line)) [
      | inl text ↦
          rw (field, text)
            (record {
              buffers = omega (arith, h.buffers, length-with_data s.acc s.line);
              capped = h.capped;
            })
      | inr bad ↦ rw (field, bad) tt
    ]
  ]

  step-Bounded : (s : SseDecoder) (byte : ℕ) → IsBounded s → Bounded (step from_slice s byte)
  unfolding step
  step-Bounded s byte h = elim (Bool-cases (s.after_cr && byte == 10)) [
    | inl second ↦ rw second (record { buffers = h.buffers; capped = h.capped })
    | inr counts ↦ elim (Bool-cases (ltb max_frame (suc s.frame_bytes))) [
      | inl full ↦ rw (counts, full) tt
      | inr room ↦
          let t : SseDecoder = record s {
            after_cr = byte == 13;
            frame_bytes = suc s.frame_bytes;
          } in
          let fits : suc s.frame_bytes ≤ max_frame = ground arith in
          elim (Bool-cases (byte == 10 || byte == 13)) [
            | inl ends ↦
                rw (counts, room, ends)
                  (end_line-Bounded t
                    (record { buffers = omega (arith, h.buffers); capped = fits }))
            | inr other ↦
                rw (counts, room, other)
                  (record {
                    buffers = omega (arith, h.buffers, length-append s.line (byte ∷ []));
                    capped = fits;
                  })
          ]
    ]
  ]

  feed_bytes-Bounded :
      (bytes : List ℕ) (s : SseDecoder) → IsBounded s → Bounded (feed_bytes from_slice s bytes)
  unfolding feed_bytes
  feed_bytes-Bounded [] s h = h
  feed_bytes-Bounded (byte ∷ bytes) s h =
      Bounded-and_then (step from_slice s byte) (λ t. feed_bytes from_slice t bytes)
        (step-Bounded s byte h) (λ t k. feed_bytes-Bounded bytes t k)

Bounded-ok :
    (m : Decoded) (s : SseDecoder) (es : List Value) → Bounded m → m ≡ ok (s, es) → IsBounded s
Bounded-ok (ok (t, fs)) s es h e = let same : t ≡ s = ground arith in subst IsBounded same h
Bounded-ok (err x) s es h e = cc

-- Whatever bytes have arrived, a decoder that has not failed buffers at most the bytes of the current
-- frame, and these are at most 16 MiB.
pub decoder_bounded :
    (from_slice : List ℕ → Option Value) (bytes : List ℕ) (s : SseDecoder) (es : List Value)
    → feed from_slice fresh bytes false ≡ ok (s, es)
    → (length s.line + length s.acc ≤ s.frame_bytes) × (s.frame_bytes ≤ max_frame)
unfolding feed
decoder_bounded from_slice bytes s es e =
    let start : IsBounded fresh = record { buffers = omega arith; capped = omega arith } in
    let h =
      Bounded-ok (feed_bytes from_slice fresh bytes) s es
        (feed_bytes-Bounded from_slice bytes fresh start) e in
    (h.buffers, h.capped)
