-- ===== src/Capacity/Scan/Refines.antt =====
-- src/proxy/capacity.rs, `prelude_sse`: the scan decides what the lines decide.
use hey_proxy.Base.{
  ℕ, ◌<◌, ◌≡◌, refl, ap, ◌∙◌, inl, inr, true, false, List, [], ◌∷◌, ◌++◌, ◌==◌, ==_iff,
  if◌then◌else◌, is_empty, length, leb_of_lt, arith, Bool-cases, last-append, but_last-append, All,
}
use hey_proxy.Base.Text.{ends_with, codes, equal_bytes}
use hey_proxy.Framing.{strip_cr, add_line, complete_lines, decide_lines}
use hey_proxy.Capacity.{Prelude, waiting}
use hey_proxy.Capacity.Stream.{limit, split_inclusive}
use hey_proxy.Capacity.Scan.{is_waiting, strip_newline, scan, prelude_sse}

abbrev Unended : List ℕ → Type 0
Unended = All (λ b. (b == 10) ≡ false)

ends_with-Unended : (line : List ℕ) → Unended line → ends_with (codes "\n") line ≡ false
unfolding ends_with equal_bytes
ends_with-Unended [] u = refl
ends_with-Unended (b ∷ bs) (n, u) = ground (arith, ends_with-Unended bs u)

ends_with-newline : (line : List ℕ) → ends_with (codes "\n") (line ++ 10 ∷ []) ≡ true
unfolding ends_with equal_bytes
ends_with-newline [] = refl
ends_with-newline (b ∷ bs) = ground (arith, ends_with-newline bs)

strip_newline-append : (line : List ℕ) → strip_newline (line ++ 10 ∷ []) ≡ line
unfolding strip_newline
strip_newline-append line = rw (strip_newline, last-append line 10) (but_last-append line 10)

Unended-append :
    (line : List ℕ) (b : ℕ) → Unended line → (b == 10) ≡ false → Unended (line ++ b ∷ [])
Unended-append [] b u n = (n, tt)
Unended-append (c ∷ cs) b (m, u) n = (m, Unended-append cs b u n)

module _ (prelude_event : List ℕ → Prelude) where
  abbrev by_lines : List ℕ → List (List ℕ) → Prelude
  by_lines = decide_lines prelude_event is_waiting waiting

  scan-unfinished :
      (cur acc : List ℕ)
      → Unended cur
      → scan prelude_event false acc (if is_empty cur then [] else cur ∷ []) ≡ waiting
  unfolding scan
  scan-unfinished [] acc u = refl
  scan-unfinished (c ∷ cs) acc u = rw (ends_with-Unended (c ∷ cs) u)

  scan-line :
      (line acc : List ℕ) (lines rest : List (List ℕ))
      → ((next : List ℕ) → scan prelude_event false next lines ≡ by_lines next rest)
      → scan prelude_event false acc ((line ++ 10 ∷ []) ∷ lines) ≡ by_lines acc (line ∷ rest)
  unfolding scan decide_lines
  scan-line line [] lines rest ih =
      rw
        (ends_with-newline line, strip_newline-append line, ih [], ih (add_line [] (strip_cr line)))
  scan-line line (a ∷ acc) lines rest ih = rw (
    ends_with-newline line,
    strip_newline-append line,
    ih [],
    ih (add_line (a ∷ acc) (strip_cr line)),
  )

  scan-by_lines :
      (bytes cur acc : List ℕ)
      → Unended cur
      → scan prelude_event false acc (split_inclusive cur bytes)
        ≡ by_lines acc (complete_lines cur bytes)
  unfolding split_inclusive complete_lines
  scan-by_lines [] cur acc u = unfold decide_lines in scan-unfinished cur acc u
  scan-by_lines (b ∷ bytes) cur acc u = elim (Bool-cases (b == 10)) [
    | inl newline ↦ rw newline (
        ap (λ c. scan prelude_event false acc ((cur ++ c ∷ []) ∷ split_inclusive [] bytes))
          ((==_iff b 10).0 newline)
        ∙ scan-line cur acc (split_inclusive [] bytes) (complete_lines [] bytes)
            (λ next. scan-by_lines bytes [] next tt))
    | inr other ↦ rw other (scan-by_lines bytes (cur ++ b ∷ []) acc (Unended-append cur b u other))
  ]

-- Below 1 MiB the scan of an unfinished response decides what its lines decide: the first event between
-- blank lines that `prelude_event` does not wait on, and waiting if there is none.
pub prelude_sse-decide_lines :
    (prelude_event : List ℕ → Prelude) (bytes : List ℕ)
    → length bytes < limit
    → prelude_sse prelude_event bytes false
      ≡ decide_lines prelude_event is_waiting waiting [] (complete_lines [] bytes)
unfolding prelude_sse
prelude_sse-decide_lines prelude_event bytes room =
    rw (leb_of_lt limit (length bytes) room) (scan-by_lines prelude_event bytes [] [] tt)
