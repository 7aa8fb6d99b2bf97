-- ===== src/Sse/RoundTrip.antt =====
-- src/proxy/sse.rs: what is framed as `data:` events is decoded again, with any line ending.
use mathlib.Core.List.{append_assoc, append-nil}
use mathlib.Core.Path.{ap₂}
use hey_proxy.Base.{
  ℕ, suc, ◌+◌, ◌≤◌, ◌<◌, ◌≡◌, refl, ap, ◌∙◌, Bool, true, false, Option, some, List, [], ◌∷◌, ◌++◌,
  ok, arith, length, ◌==◌, ◌&&◌, ◌||◌, ltb, is_empty, but_last-append, All,
}
use hey_proxy.Base.Text.{codes, equal_bytes, strip_bytes}
use hey_proxy.Base.Utf8.{is_utf8}
use hey_proxy.Framing.{data_part, without_space}
use hey_proxy.Json.{Value}
use hey_proxy.Sse.{
  SseDecoder, Decoded, fresh, max_frame, parsed, with_data, behind, and_then, dispatch, end_line,
  step, feed_bytes, finish, feed,
}
use hey_proxy.Sse.Frames.{feed_bytes-append, and_then-ok}

pub data Eol : Type 0 where
  lf crlf cr : Eol

abbrev pub eol : Eol → List ℕ
eol lf = 10 ∷ []
eol crlf = 13 ∷ 10 ∷ []
eol cr = 13 ∷ []

abbrev is_cr : Eol → Bool
is_cr cr = true
is_cr _ = false

abbrev is_lf : Eol → Bool
is_lf lf = true
is_lf _ = false

-- One event, as the proxy's own writers frame it: `data: <payload>` and a blank line.
abbrev pub frame : Eol → List ℕ → List ℕ
frame e payload = codes "data: " ++ (payload ++ (eol e ++ eol e))

abbrev pub frames : Eol → List (List ℕ × Value) → List ℕ
frames e [] = []
frames e ((payload, value) ∷ events) = frame e payload ++ frames e events

abbrev pub values : List (List ℕ × Value) → List Value
values [] = []
values ((payload, value) ∷ events) = value ∷ values events

abbrev pub IsPlain : List ℕ → Type 0
IsPlain = All (λ b. ((b == 10) ≡ false) × ((b == 13) ≡ false))

-- A decoder between two events, within a data line, and behind the data line of an event.
abbrev pub idle : Bool → SseDecoder
idle c = record { line = []; acc = []; frame_bytes = 0; after_cr = c; done = false }

abbrev reading : List ℕ → ℕ → SseDecoder
reading line n = record { line = line; acc = []; frame_bytes = n; after_cr = false; done = false }

abbrev holding : List ℕ → ℕ → Bool → SseDecoder
holding payload n c = record {
  line = [];
  acc = payload ++ 10 ∷ [];
  frame_bytes = n;
  after_cr = c;
  done = false;
}

module _ (from_slice : List ℕ → Option Value) where
  -- A payload that can be sent: JSON text on one line, and not the end mark.
  pub record IsEvent (event : List ℕ × Value) : Type 0 where
    pub filled : is_empty event.0 ≡ false
    pub plain : IsPlain event.0
    pub text : is_utf8 event.0 ≡ true
    pub not_done : equal_bytes event.0 (codes "[DONE]") ≡ false
    pub fits : length event.0 + 8 ≤ max_frame
    pub reads : from_slice event.0 ≡ some event.1

  step-plain :
      (s : SseDecoder) (b : ℕ)
      → (b == 10) ≡ false
      → (b == 13) ≡ false
      → s.frame_bytes < max_frame
      → step from_slice s b
        ≡ ok (
          record s { after_cr = false; frame_bytes = suc s.frame_bytes; line = s.line ++ b ∷ [] },
          [],
        )
  unfolding step
  step-plain s b n r room = ground arith

  abbrev ran : SseDecoder → List ℕ → ℕ → Decoded
  ran s line n = ok (record s { after_cr = false; frame_bytes = n; line = line }, [])

  -- A run of plain bytes is appended to the line.
  feed-plain :
      (b : ℕ) (bs : List ℕ) (s : SseDecoder)
      → IsPlain (b ∷ bs)
      → s.frame_bytes + length (b ∷ bs) ≤ max_frame
      → feed_bytes from_slice s (b ∷ bs)
        ≡ ran s (s.line ++ b ∷ bs) (s.frame_bytes + length (b ∷ bs))
  unfolding feed_bytes
  feed-plain b [] s ((n, r), _) room =
      ap (λ m. and_then m (λ t. feed_bytes from_slice t [])) (step-plain s b n r (omega arith))
      ∙ ap (ran s (s.line ++ b ∷ [])) (omega arith)
  feed-plain b (c ∷ cs) s ((n, r), p) room =
      let t : SseDecoder = record s {
        after_cr = false;
        frame_bytes = suc s.frame_bytes;
        line = s.line ++ b ∷ [];
      } in
      ap (λ m. and_then m (λ u. feed_bytes from_slice u (c ∷ cs)))
        (step-plain s b n r (omega arith))
      ∙ and_then-ok t (λ u. feed_bytes from_slice u (c ∷ cs))
      ∙ feed-plain c cs t p (omega arith)
      ∙ ap₂ (ran s) (append_assoc s.line (b ∷ []) (c ∷ cs)) (omega arith)

  step-eol :
      (s : SseDecoder) (b : ℕ)
      → (b == 10 || b == 13) ≡ true
      → (s.after_cr && b == 10) ≡ false
      → s.frame_bytes < max_frame
      → step from_slice s b
        ≡ end_line from_slice (record s { after_cr = b == 13; frame_bytes = suc s.frame_bytes })
  unfolding step
  step-eol s b ends counts room =
      let fits : ltb max_frame (suc s.frame_bytes) ≡ false = ground arith in rw (counts, fits, ends)

  step-second :
      (t : SseDecoder)
      → step from_slice (record t { after_cr = true }) 10 ≡ ok (record t { after_cr = false }, [])
  unfolding step
  step-second t = refl

  -- A line ending reads the line and leaves the frame one byte longer, whichever it is.
  feed-eol :
      (e : Eol) (s t : SseDecoder) (es : List Value)
      → (s.after_cr && is_lf e) ≡ false
      → s.frame_bytes < max_frame
      → ((c : Bool)
          → end_line from_slice (record s { after_cr = c; frame_bytes = suc s.frame_bytes })
            ≡ ok (record t { after_cr = c }, es))
      → feed_bytes from_slice s (eol e) ≡ ok (record t { after_cr = is_cr e }, es)
  unfolding feed_bytes
  feed-eol lf s t es first room line =
      ap (λ m. and_then m (λ u. ok (u, []))) (step-eol s 10 refl first room ∙ line false)
      ∙ ap (λ l. ok (record t { after_cr = false }, l)) (append-nil es)
  feed-eol cr s t es first room line =
      ap (λ m. and_then m (λ u. ok (u, []))) (step-eol s 13 refl first room ∙ line true)
      ∙ ap (λ l. ok (record t { after_cr = true }, l)) (append-nil es)
  feed-eol crlf s t es first room line =
      ap (λ m. and_then m (λ u. feed_bytes from_slice u (10 ∷ [])))
        (step-eol s 13 refl first room ∙ line true)
      ∙ ap (λ m. behind es (and_then m (λ u. ok (u, [])))) (step-second t)
      ∙ ap (λ l. ok (record t { after_cr = false }, l)) (append-nil es)

  end_line-field :
      (s : SseDecoder)
      → is_empty s.line ≡ false
      → is_utf8 s.line ≡ true
      → end_line from_slice s
        ≡ ok (record s { line = []; acc = with_data s.acc (data_part s.line) }, [])
  unfolding end_line
  end_line-field s field text = rw (field, text)

  -- A blank line behind one payload pushes its value.
  end_line-event :
      (event : List ℕ × Value) (n : ℕ) (c : Bool)
      → IsEvent event
      → end_line from_slice (holding event.0 n c) ≡ ok (idle c, event.1 ∷ [])
  unfolding end_line dispatch
  end_line-event event n c good =
      rw (but_last-append event.0 10, good.filled, good.not_done) (ap (parsed (idle c)) good.reads)

  data_part-payload : (payload : List ℕ) → data_part (codes "data: " ++ payload) ≡ some payload
  unfolding data_part without_space strip_bytes
  data_part-payload payload = refl

  is_utf8-payload :
      (payload : List ℕ) → is_utf8 payload ≡ true → is_utf8 (codes "data: " ++ payload) ≡ true
  unfolding is_utf8
  is_utf8-payload payload h = h

  end_line-data :
      (event : List ℕ × Value) (n : ℕ) (c : Bool)
      → IsEvent event
      → end_line from_slice (record (reading (codes "data: " ++ event.0) n) { after_cr = c })
        ≡ ok (holding event.0 n c, [])
  end_line-data event n c good =
      end_line-field (record (reading (codes "data: " ++ event.0) n) { after_cr = c }) refl
        (is_utf8-payload event.0 good.text)
      ∙ ap (λ o. ok (record (holding event.0 n c) { acc = with_data [] o }, []))
          (data_part-payload event.0)

  not_both : (e : Eol) → (is_cr e && is_lf e) ≡ false
  not_both lf = refl
  not_both crlf = refl
  not_both cr = refl

  -- A whole frame, read by a decoder between two events, pushes its value.
  feed-frame :
      (e : Eol) (event : List ℕ × Value) (c : Bool)
      → IsEvent event
      → feed_bytes from_slice (idle c) (frame e event.0) ≡ ok (idle (is_cr e), event.1 ∷ [])
  feed-frame e event c good =
      let n : ℕ = length (codes "data: " ++ event.0) in
      let end = λ (u : SseDecoder). feed_bytes from_slice u (eol e) in
      let ends = λ (u : SseDecoder). feed_bytes from_slice u (eol e ++ eol e) in
      feed_bytes-append from_slice (codes "data: " ++ event.0) (eol e ++ eol e) (idle c)
      ∙ ap (λ m. and_then m ends)
          (feed-plain 100 (codes "ata: " ++ event.0) (idle c)
              (
                (refl, refl),
                (
                  (refl, refl),
                  ((refl, refl), ((refl, refl), ((refl, refl), ((refl, refl), good.plain)))),
                ),
              )
              (omega (arith, good.fits))
            ∙ ap (ran (idle c) (codes "data: " ++ event.0)) (omega arith))
      ∙ and_then-ok (reading (codes "data: " ++ event.0) n) ends
      ∙ feed_bytes-append from_slice (eol e) (eol e) (reading (codes "data: " ++ event.0) n)
      ∙ ap (λ m. and_then m end)
          (feed-eol e (reading (codes "data: " ++ event.0) n) (holding event.0 (suc n) false) []
            refl (omega (arith, good.fits)) (λ d. end_line-data event (suc n) d good))
      ∙ and_then-ok (holding event.0 (suc n) (is_cr e)) end
      ∙ feed-eol e (holding event.0 (suc n) (is_cr e)) (idle false) (event.1 ∷ []) (not_both e)
          (omega (arith, good.fits)) (λ d. end_line-event event (suc (suc n)) d good)

  feed_bytes-frames :
      (e : Eol) (c : Bool) (events : List (List ℕ × Value))
      → All IsEvent events
      → (d : Bool) × (feed_bytes from_slice (idle c) (frames e events) ≡ ok (idle d, values events))
  unfolding feed_bytes
  feed_bytes-frames e c [] good = (c, refl)
  feed_bytes-frames e c (event ∷ events) (first, good) =
      let (d, rest) = feed_bytes-frames e (is_cr e) events good in
      (
        d,
        feed_bytes-append from_slice (frame e event.0) (frames e events) (idle c)
            ∙ ap (λ m. and_then m (λ u. feed_bytes from_slice u (frames e events)))
                (feed-frame e event c first)
            ∙ ap (behind (event.1 ∷ [])) rest,
      )

  finish-idle : (d : Bool) → finish from_slice (idle d) ≡ ok (idle d, [])
  unfolding finish dispatch
  finish-idle d = refl

  -- A stream of sendable events, each framed as `data: <payload>` and a blank line with the
  -- same line ending, is decoded to exactly their values, in order; the decoder is left empty.
  pub feed-frames :
      (e : Eol) (events : List (List ℕ × Value))
      → All IsEvent events
      → (d : Bool) × (feed from_slice fresh (frames e events) true ≡ ok (idle d, values events))
  unfolding feed
  feed-frames e events good =
      let (d, run) = feed_bytes-frames e false events good in
      (
        d,
        ap (λ m. and_then m (finish from_slice)) run
            ∙ ap (behind (values events)) (finish-idle d)
            ∙ ap (λ l. ok (idle d, l)) (append-nil (values events)),
      )
