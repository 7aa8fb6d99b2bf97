-- ===== src/Capacity/Stream/Unchanged.antt =====
-- src/proxy/capacity.rs, `Sse`: responses of any length in which no event is translated.
use mathlib.Core.List.{append_assoc, append-nil}
use mathlib.Core.Path.{subst}
use hey_proxy.Base.{
  ℕ, ◌≡◌, refl, sym, ap, ◌∙◌, Bool, true, false, Option, List, [], ◌∷◌, ◌++◌, ◌==◌, if◌then◌else◌,
  concat, All,
}
use hey_proxy.Capacity.Stream.{
  Sse, Fed, default, push, end_line, after_byte, round, feed, feed_chunks,
}
use hey_proxy.Capacity.Stream.Kept.{
  if-cases, Holds, IsPlain, IsKept, IsPushed, translate_frame-Holds, push-IsPushed, end_line-IsKept,
  spill-IsKept,
}
use hey_proxy.Capacity.Stream.Order.{
  cut, cut-line, cut-blank, cut-cr, cut-other, total, feed-step, feed_chunks-concat,
}

module _ (event : List ℕ → Option (List ℕ)) where
  after_byte-IsKept :
      (nonempty : Bool) (cur read bs output : List ℕ) (s : Sse) (b : ℕ)
      → IsPushed nonempty (cur ++ b ∷ []) read (s, output)
      → All (IsPlain event) (cut nonempty cur (b ∷ bs))
      → IsKept event read bs (after_byte event b (s, output))
  after_byte-IsKept nonempty cur read bs output s b k plain =
      let more = cur ++ b ∷ [] in
      let held : Sse → Fed = λ t. (t, output) in
      let other = if b == 13 then (s, output) else held (record s { line_nonempty = true }) in
      if-cases (IsKept event read bs) (end_line event (s, output)) other (b == 10)
        (λ newline.
          end_line-IsKept event more read bs output s k.written k.held
            (λ e.
              subst (All (IsPlain event)) (cut-line nonempty cur b bs newline (sym k.line ∙ e))
                plain)
            (λ e.
              subst (All (IsPlain event)) (cut-blank nonempty cur b bs newline (sym k.line ∙ e))
                plain))
        (λ no_newline.
          if-cases (IsKept event read bs) (s, output) (held (record s { line_nonempty = true }))
            (b == 13)
            (λ cr. record {
              cur = more;
              written = k.written;
              held = k.held;
              rest =
                  subst (λ n. All (IsPlain event) (cut n more bs)) (sym k.line)
                    (subst (All (IsPlain event)) (cut-cr nonempty cur b bs no_newline cr) plain);
            })
            (λ not_cr. record {
              cur = more;
              written = k.written;
              held = record { under = k.held.under; over = k.held.over };
              rest =
                  subst (All (IsPlain event)) (cut-other nonempty cur b bs no_newline not_cr) plain;
            }))

  round-IsKept :
      (cur bs : List ℕ) (s : Sse) (b : ℕ)
      → Holds cur s
      → All (IsPlain event) (cut s.line_nonempty cur (b ∷ bs))
      → IsKept event (s.buffer ++ b ∷ []) bs (round event s b)
  unfolding round
  round-IsKept cur bs s b k plain =
      let pushed = push s b in
      let read = after_byte event b pushed in
      spill-IsKept event (s.buffer ++ b ∷ []) bs read.1 read.0 (
        after_byte-IsKept s.line_nonempty cur (s.buffer ++ b ∷ []) bs pushed.1 pushed.0 b
          (push-IsPushed cur s b k) plain)

  total-plain :
      (bs cur : List ℕ) (s : Sse)
      → Holds cur s
      → All (IsPlain event) (cut s.line_nonempty cur bs)
      → total event s bs ≡ s.buffer ++ bs
  unfolding feed cut
  total-plain [] cur s k plain =
      translate_frame-Holds event cur s k plain.0 ∙ sym (append-nil s.buffer)
  total-plain (b ∷ bs) cur s k plain =
      let t = (round event s b).0 in
      let output = (round event s b).1 in
      let kept = round-IsKept cur bs s b k plain in
      feed-step event s t b bs output refl
      ∙ ap (λ rest. output ++ rest) (total-plain bs kept.cur t kept.held kept.rest)
      ∙ sym (append_assoc output t.buffer bs)
      ∙ ap (λ read. read ++ bs) kept.written
      ∙ append_assoc s.buffer (b ∷ []) bs

-- If none of a response's events, cut behind its blank lines, is translated, then the response passes byte
-- for byte, however it is cut into chunks and however long its events are.
pub feed_chunks_unchanged :
    (event : List ℕ → Option (List ℕ)) (chunks : List (List ℕ))
    → All (IsPlain event) (cut false [] (concat chunks))
    → feed_chunks event default chunks ≡ concat chunks
feed_chunks_unchanged event chunks plain =
    feed_chunks-concat event chunks default
    ∙ total-plain event (concat chunks) [] default (record { under = λ h. refl; over = λ h. refl })
        plain
