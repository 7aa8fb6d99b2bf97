-- ===== src/Fallback/Scanner/Refines.antt =====
-- src/fallback.rs, `SsePrelude::feed`: the incremental scanner decides what the lines decide.
use hey_proxy.Base.{
  ℕ, suc, ◌+◌, ◌<◌, ◌≡◌, refl, sym, ap, ◌∙◌, inl, inr, Bool, true, false, Option, List, [], ◌∷◌,
  ◌++◌, ◌==◌, arith, length, is_empty, is_empty-eq-true, leb_of_lt, ==_iff, Bool-cases, concat,
}
use hey_proxy.Framing.{strip_cr, add_line, complete_lines, decide_lines}
use hey_proxy.Json.{Value}
use hey_proxy.Fallback.Policy.{Prelude, waiting, committed, refused, is_waiting, prelude_event}
use hey_proxy.Fallback.Scanner.{SsePrelude, new, max_prelude, end_line, advance, feed, feed_chunks}

module _ (from_slice : List ℕ → Option Value) where
  -- A decision that is made stays.
  advance_decided :
      (d : Prelude) (s : SsePrelude) (byte : ℕ)
      → is_waiting d ≡ false
      → advance from_slice d s byte ≡ s
  unfolding advance
  advance_decided waiting s byte h = cc
  advance_decided committed s byte h = refl
  advance_decided refused s byte h = refl

  feed_decided :
      (bytes : List ℕ) (s : SsePrelude)
      → is_waiting s.decision ≡ false
      → feed from_slice s bytes ≡ s
  unfolding feed
  feed_decided [] s h = refl
  feed_decided (byte ∷ bytes) s h =
      ap (λ t. feed from_slice t bytes) (advance_decided s.decision s byte h)
      ∙ feed_decided bytes s h

  feed-append :
      (xs ys : List ℕ) (s : SsePrelude)
      → feed from_slice s (xs ++ ys) ≡ feed from_slice (feed from_slice s xs) ys
  unfolding feed
  feed-append [] ys s = refl
  feed-append (x ∷ xs) ys s = feed-append xs ys (advance from_slice s.decision s x)

  feed_chunks-concat :
      (chunks : List (List ℕ)) (s : SsePrelude)
      → feed_chunks from_slice s chunks ≡ feed from_slice s (concat chunks)
  unfolding feed_chunks
  feed_chunks-concat [] s = unfold feed in refl
  feed_chunks-concat (chunk ∷ chunks) s =
      feed_chunks-concat chunks (feed from_slice s chunk)
      ∙ sym (feed-append chunk (concat chunks) s)

  module _ (gemini : Bool) where
    abbrev by_lines : List ℕ → List (List ℕ) → Prelude
    by_lines = decide_lines (λ acc. prelude_event from_slice acc gemini) is_waiting waiting

    -- One byte, below the bound.
    advance-newline :
        (s : SsePrelude)
        → suc s.total < max_prelude
        → advance from_slice waiting s 10 ≡ end_line from_slice (record s { total = suc s.total })
    unfolding advance
    advance-newline s h = rw (leb_of_lt max_prelude (suc s.total) h)

    advance-other :
        (s : SsePrelude) (byte : ℕ)
        → suc s.total < max_prelude
        → (byte == 10) ≡ false
        → advance from_slice waiting s byte
          ≡ record s { total = suc s.total; line = s.line ++ byte ∷ [] }
    unfolding advance
    advance-other s byte h e = rw (leb_of_lt max_prelude (suc s.total) h, e)

    is_waiting-eq-true : (d : Prelude) → is_waiting d ≡ true → d ≡ waiting
    is_waiting-eq-true d h = ground arith

    -- The state after a newline, by the three kinds of line.
    end_line-data :
        (s : SsePrelude)
        → is_empty (strip_cr s.line) ≡ false
        → end_line from_slice s ≡ record s { line = []; acc = add_line s.acc (strip_cr s.line) }
    unfolding end_line
    end_line-data s e = rw e

    end_line-blank :
        (s : SsePrelude)
        → is_empty (strip_cr s.line) ≡ true
        → is_empty s.acc ≡ true
        → end_line from_slice s ≡ record s { line = [] }
    unfolding end_line
    end_line-blank s e a = rw (e, a)

    end_line-event :
        (s : SsePrelude)
        → is_empty (strip_cr s.line) ≡ true
        → is_empty s.acc ≡ false
        → end_line from_slice s
          ≡ record s { line = []; acc = []; decision = prelude_event from_slice s.acc s.gemini }
    unfolding end_line
    end_line-event s e a = rw (e, a)

    -- A line that a newline ends is read as `decide_lines` reads it, if the rest is.
    end_line-by_lines :
        (bytes : List ℕ) (s : SsePrelude)
        → s.decision ≡ waiting
        → s.gemini ≡ gemini
        → ((t : SsePrelude)
            → t.decision ≡ waiting
            → t.gemini ≡ gemini
            → t.total ≡ s.total
            → (feed from_slice t bytes).decision ≡ by_lines t.acc (complete_lines t.line bytes))
        → (feed from_slice (end_line from_slice s) bytes).decision
          ≡ by_lines s.acc (s.line ∷ complete_lines [] bytes)
    unfolding decide_lines
    end_line-by_lines bytes s w g ih = elim (Bool-cases (is_empty (strip_cr s.line))) [
      | inr field ↦
          rw (field, end_line-data s field)
            (ih (record s { line = []; acc = add_line s.acc (strip_cr s.line) }) w g refl)
      | inl blank ↦ elim (Bool-cases (is_empty s.acc)) [
        | inl none_yet ↦
            rw (blank, none_yet, end_line-blank s blank none_yet)
              (ih (record s { line = [] }) w g refl
                ∙ ap (λ a. by_lines a (complete_lines [] bytes)) (is_empty-eq-true s.acc none_yet))
        | inr event ↦
            let t : SsePrelude = record s {
              line = [];
              acc = [];
              decision = prelude_event from_slice s.acc s.gemini;
            } in
            let same = ap (prelude_event from_slice s.acc) g in
            elim (Bool-cases (is_waiting (prelude_event from_slice s.acc gemini))) [
              | inl more ↦
                  rw (blank, event, end_line-event s blank event, more)
                    (ih t (same ∙ is_waiting-eq-true _ more) g refl)
              | inr done ↦
                  rw (blank, event, end_line-event s blank event, done)
                    (ap (λ (u : SsePrelude). u.decision)
                        (feed_decided bytes t (ap is_waiting same ∙ done))
                      ∙ same)
            ]
      ]
    ]

    feed-by_lines :
        (bytes : List ℕ) (s : SsePrelude)
        → s.decision ≡ waiting
        → s.gemini ≡ gemini
        → s.total + length bytes < max_prelude
        → (feed from_slice s bytes).decision ≡ by_lines s.acc (complete_lines s.line bytes)
    unfolding feed complete_lines
    feed-by_lines [] s w g h = unfold decide_lines in w
    feed-by_lines (byte ∷ bytes) s w g h = elim (Bool-cases (byte == 10)) [
      | inl newline ↦
          let t : SsePrelude = record s { total = suc s.total } in
          ap (λ d. (feed from_slice (advance from_slice d s byte) bytes).decision) w
          ∙ ap (λ b. (feed from_slice (advance from_slice waiting s b) bytes).decision)
              ((==_iff byte 10).0 newline)
          ∙ ap (λ (u : SsePrelude). (feed from_slice u bytes).decision)
              (advance-newline s (omega arith))
          ∙ rw newline (
              end_line-by_lines bytes t w g
                λ u uw ug same. feed-by_lines bytes u uw ug (omega (arith, same)))
      | inr other ↦
          let t : SsePrelude = record s { total = suc s.total; line = s.line ++ byte ∷ [] } in
          ap (λ d. (feed from_slice (advance from_slice d s byte) bytes).decision) w
          ∙ ap (λ (u : SsePrelude). (feed from_slice u bytes).decision)
              (advance-other s byte (omega arith) other)
          ∙ rw other (feed-by_lines bytes t w g (omega arith))
    ]

-- Below 256 KiB the incremental scanner, fed with the stream in chunks cut anywhere, decides what the
-- lines of the whole stream decide: the first event between blank lines that `prelude_event` does
-- not wait on, and waiting if there is none. The scanner's own bound plays no part then.
pub feed_chunks-decide_lines :
    (from_slice : List ℕ → Option Value) (gemini : Bool) (chunks : List (List ℕ))
    → length (concat chunks) < max_prelude
    → (feed_chunks from_slice (new gemini) chunks).decision
      ≡ decide_lines
          (λ acc. prelude_event from_slice acc gemini)
          is_waiting
          waiting
          []
          (complete_lines [] (concat chunks))
feed_chunks-decide_lines from_slice gemini chunks h =
    ap (λ (u : SsePrelude). u.decision) (feed_chunks-concat from_slice chunks (new gemini))
    ∙ feed-by_lines from_slice gemini (concat chunks) (new gemini) refl refl (omega arith)
