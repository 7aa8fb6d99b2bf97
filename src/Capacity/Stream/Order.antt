-- ===== src/Capacity/Stream/Order.antt =====
-- src/proxy/capacity.rs, `Sse`: the output is that of the events one by one, and no other byte is
-- changed.
use mathlib.Core.List.{append_assoc, append-nil}
use hey_proxy.Base.{
  ℕ, suc, ◌+◌, ◌<◌, ◌≡◌, refl, sym, ap, ◌∙◌, inl, inr, Bool, true, false, Option, List, [], ◌∷◌,
  ◌++◌, leb, ◌==◌, if◌then◌else◌, length, length-append, leb_of_lt, arith, map, concat, Bool-cases,
}
use hey_proxy.Capacity.Stream.{
  Sse, Fed, default, limit, translate_frame, finish, round, feed, feed_chunks,
}

-- The events of a stream: it is cut behind each blank line. `nonempty` tells whether the line so far
-- holds anything, `cur` is the beginning of the first event.
unfoldable pub cut : Bool → List ℕ → List ℕ → List (List ℕ)
cut nonempty cur [] = cur ∷ []
cut nonempty cur (b ∷ bs) =
    let ended = (cur ++ b ∷ []) ∷ cut false [] bs in
    let next_line = cut false (cur ++ b ∷ []) bs in
    let same = cut nonempty (cur ++ b ∷ []) bs in
    let longer = cut true (cur ++ b ∷ []) bs in
    if b == 10 then (if nonempty then next_line else ended) else if b == 13 then same else longer

module _ (nonempty : Bool) (cur : List ℕ) (b : ℕ) (bs : List ℕ) where
  pub cut-line :
      (b == 10) ≡ true → nonempty ≡ true → cut nonempty cur (b ∷ bs) ≡ cut false (cur ++ b ∷ []) bs
  unfolding cut
  cut-line newline some_line = rw (newline, some_line)

  pub cut-blank :
      (b == 10) ≡ true
      → nonempty ≡ false
      → cut nonempty cur (b ∷ bs) ≡ (cur ++ b ∷ []) ∷ cut false [] bs
  unfolding cut
  cut-blank newline blank = rw (newline, blank)

  pub cut-cr :
      (b == 10) ≡ false
      → (b == 13) ≡ true
      → cut nonempty cur (b ∷ bs) ≡ cut nonempty (cur ++ b ∷ []) bs
  unfolding cut
  cut-cr other cr = rw (other, cr)

  pub cut-other :
      (b == 10) ≡ false
      → (b == 13) ≡ false
      → cut nonempty cur (b ∷ bs) ≡ cut true (cur ++ b ∷ []) bs
  unfolding cut
  cut-other other not_cr = rw (other, not_cr)

module _ (event : List ℕ → Option (List ℕ)) where
  pub feed-append :
      (xs ys : List ℕ) (s : Sse)
      → feed event s (xs ++ ys) ≡ (
        (feed event (feed event s xs).0 ys).0,
        (feed event s xs).1 ++ (feed event (feed event s xs).0 ys).1,
      )
  unfolding feed
  feed-append [] ys s = refl
  feed-append (x ∷ xs) ys s =
      ap (λ (p : Fed). (p.0, (round event s x).1 ++ p.1)) (feed-append xs ys (round event s x).0)
      ∙ ap (λ out. ((feed event (feed event (round event s x).0 xs).0 ys).0, out))
          (sym (
            append_assoc (round event s x).1 (feed event (round event s x).0 xs).1
              (feed event (feed event (round event s x).0 xs).0 ys).1))

  -- The output behind a state, and at the end.
  abbrev pub total : Sse → List ℕ → List ℕ
  total s bytes = (feed event s bytes).1 ++ translate_frame event (feed event s bytes).0.buffer

  pub feed_chunks-concat :
      (chunks : List (List ℕ)) (s : Sse) → feed_chunks event s chunks ≡ total s (concat chunks)
  unfolding feed_chunks
  feed_chunks-concat [] s = unfold feed finish in refl
  feed_chunks-concat (chunk ∷ chunks) s =
      ap (λ out. (feed event s chunk).1 ++ out) (feed_chunks-concat chunks (feed event s chunk).0)
      ∙ sym (
          append_assoc (feed event s chunk).1 (feed event (feed event s chunk).0 (concat chunks)).1
            (translate_frame event (feed event (feed event s chunk).0 (concat chunks)).0.buffer))
      ∙ ap (λ (p : Fed). p.1 ++ translate_frame event p.0.buffer)
          (sym (feed-append chunk (concat chunks) s))

  module _ (s : Sse) (b : ℕ) (fresh : s.overflow ≡ false)
      (room : suc (length s.buffer) < limit) where
    abbrev longer : List ℕ
    longer = s.buffer ++ b ∷ []

    roomy : leb limit (length longer) ≡ false
    roomy = leb_of_lt limit (length longer) (omega (arith, length-append s.buffer (b ∷ [])))

    round-line :
        (b == 10) ≡ true
        → s.line_nonempty ≡ true
        → round event s b ≡ (record s { buffer = longer; line_nonempty = false }, [])
    unfolding round
    round-line newline some_line = rw (fresh, newline, some_line, roomy)

    round-blank :
        (b == 10) ≡ true
        → s.line_nonempty ≡ false
        → round event s b ≡ (default, translate_frame event longer)
    unfolding round finish
    round-blank newline blank = rw (fresh, newline, blank)

    round-cr :
        (b == 10) ≡ false → (b == 13) ≡ true → round event s b ≡ (record s { buffer = longer }, [])
    unfolding round
    round-cr other cr = rw (fresh, other, cr, roomy)

    round-other :
        (b == 10) ≡ false
        → (b == 13) ≡ false
        → round event s b ≡ (record s { buffer = longer; line_nonempty = true }, [])
    unfolding round
    round-other other not_cr = rw (fresh, other, not_cr, roomy)

  abbrev translated : List (List ℕ) → List ℕ
  translated frames = concat (map (translate_frame event) frames)

  pub feed-step :
      (s t : Sse) (b : ℕ) (bs output : List ℕ)
      → round event s b ≡ (t, output)
      → total s (b ∷ bs) ≡ output ++ total t bs
  unfolding feed
  feed-step s t b bs output e =
      ap
        (λ (p : Fed).
          (p.1 ++ (feed event p.0 bs).1) ++ translate_frame event (feed event p.0 bs).0.buffer)
        e
      ∙ append_assoc output (feed event t bs).1 (translate_frame event (feed event t bs).0.buffer)

  total-cut :
      (bs : List ℕ) (s : Sse)
      → s.overflow ≡ false
      → length s.buffer + length bs < limit
      → total s bs ≡ translated (cut s.line_nonempty s.buffer bs)
  total-cut [] s fresh room = unfold feed cut in sym (append-nil (translate_frame event s.buffer))
  total-cut (b ∷ bs) s fresh room =
      let here : suc (length s.buffer) < limit = omega arith in
      let more : List ℕ = s.buffer ++ b ∷ [] in
      let fits : length more + length bs < limit = omega (arith, length-append s.buffer (b ∷ [])) in
      let step = λ (t : Sse) (output : List ℕ). feed-step s t b bs output in
      elim (Bool-cases (b == 10)) [
        | inl newline ↦ elim (Bool-cases s.line_nonempty) [
          | inl some_line ↦
              let t : Sse = record s { buffer = more; line_nonempty = false } in
              step t [] (round-line s b fresh here newline some_line)
              ∙ total-cut bs t fresh fits
              ∙ ap translated (sym (cut-line s.line_nonempty s.buffer b bs newline some_line))
          | inr blank ↦
              step default (translate_frame event more) (round-blank s b fresh here newline blank)
              ∙ ap (λ out. translate_frame event more ++ out)
                  (total-cut bs default refl (omega arith))
              ∙ ap translated (sym (cut-blank s.line_nonempty s.buffer b bs newline blank))
        ]
        | inr other ↦ elim (Bool-cases (b == 13)) [
          | inl cr ↦
              let t : Sse = record s { buffer = more } in
              step t [] (round-cr s b fresh here other cr)
              ∙ total-cut bs t fresh fits
              ∙ ap translated (sym (cut-cr s.line_nonempty s.buffer b bs other cr))
          | inr not_cr ↦
              let t : Sse = record s { buffer = more; line_nonempty = true } in
              step t [] (round-other s b fresh here other not_cr)
              ∙ total-cut bs t fresh fits
              ∙ ap translated (sym (cut-other s.line_nonempty s.buffer b bs other not_cr))
        ]
      ]

-- Below 1 MiB the output for a stream, cut into chunks anywhere, is the output for its events one by
-- one, in order, where the stream is cut behind each blank line; the unfinished last event counts too.
pub feed_chunks-cut :
    (event : List ℕ → Option (List ℕ)) (chunks : List (List ℕ))
    → length (concat chunks) < limit
    → feed_chunks event default chunks
      ≡ concat (map (translate_frame event) (cut false [] (concat chunks)))
feed_chunks-cut event chunks room =
    feed_chunks-concat event chunks default
    ∙ total-cut event (concat chunks) default refl (omega arith)
