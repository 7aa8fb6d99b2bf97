-- ===== src/Capacity/Stream/Forwarded.antt =====
-- src/proxy/capacity.rs, `Sse`, for streams of any length: no byte outside a translated event is
-- lost, added or moved.
use mathlib.Core.List.{append_assoc, append-nil}
use mathlib.Core.Path.{subst}
use hey_proxy.Base.{
  ℕ, ◌≡◌, refl, sym, ap, ◌∙◌, inl, inr, Bool, true, false, Option, some, List, [], ◌∷◌, ◌++◌, leb,
  ◌==◌, if◌then◌else◌, length, concat, Bool-cases, Option-cases,
}
use hey_proxy.Capacity.Stream.{
  Sse, Fed, default, limit, push, spill, end_event, end_line, after_byte, translate_frame, finish,
  round, feed, feed_chunks, replace_data, split_inclusive, split, gather,
}
use hey_proxy.Capacity.Stream.Order.{feed_chunks-concat}

-- The bytes read and the bytes written: either is cut into the same parts, each of which is unchanged
-- or an event whose data was translated.
pub data Forwarded (event : List ℕ → Option (List ℕ)) : List ℕ → List ℕ → Type 0 where
  start : Forwarded event [] []
  passed :
      (ins outs raw : List ℕ)
      → Forwarded event ins outs
      → Forwarded event (ins ++ raw) (outs ++ raw)
  framed :
      (ins outs frame new : List ℕ)
      → Forwarded event ins outs
      → event (gather [] (split [] frame)) ≡ some new
      → Forwarded event (ins ++ frame) (outs ++ replace_data new false (split_inclusive [] frame))

-- What the stream has read and written so far: all but the buffer is forwarded.
record IsTracked (event : List ℕ → Option (List ℕ)) (bytes outs : List ℕ) (s : Sse) : Type 0 where
  pub ins : List ℕ
  pub forwarded : Forwarded event ins outs
  pub pending : ins ++ s.buffer ≡ bytes
  pub spilled : s.overflow ≡ true → s.buffer ≡ []

abbrev passing : Sse → ℕ → Fed
passing s byte = (s, byte ∷ [])

abbrev keeping : Sse → ℕ → Fed
keeping s byte = (record s { buffer = s.buffer ++ byte ∷ [] }, [])

abbrev new_line : Fed → Fed
new_line (s, output) = (record s { line_nonempty = false }, output)

if-either : {A : Type 0} (P : A → Type 0) {x y : A} (b : Bool) → P x → P y → P (if b then x else y)
if-either P true p q = p
if-either P false p q = q

module _ (event : List ℕ → Option (List ℕ)) where
  translate_frame-Forwarded :
      (ins outs frame : List ℕ)
      → Forwarded event ins outs
      → Forwarded event (ins ++ frame) (outs ++ translate_frame event frame)
  unfolding translate_frame
  translate_frame-Forwarded ins outs frame f =
      elim (Option-cases (event (gather [] (split [] frame)))) [
        | inl keeps ↦ rw keeps (passed ins outs frame f)
        | inr (new, changes) ↦ rw changes (framed ins outs frame new f changes)
      ]

  -- A part of the loop that keeps what is tracked, with the output it adds.
  abbrev Tracked : List ℕ → List ℕ → Fed → Type 0
  Tracked bytes outs (s, output) = IsTracked event bytes (outs ++ output) s

  push-Tracked :
      (bytes outs : List ℕ) (s : Sse) (b : ℕ)
      → IsTracked event bytes outs s
      → Tracked (bytes ++ b ∷ []) outs (push s b)
  push-Tracked bytes outs s b k = elim (Bool-cases s.overflow) [
    | inl over ↦
        let all_read : k.ins ≡ bytes =
          sym (append-nil k.ins) ∙ ap (λ rest. k.ins ++ rest) (sym (k.spilled over)) ∙ k.pending in
        subst (Tracked (bytes ++ b ∷ []) outs)
          (sym (ap (λ o. if o then passing s b else keeping s b) over))
          (record {
            ins = k.ins ++ b ∷ [];
            forwarded = passed k.ins outs (b ∷ []) k.forwarded;
            pending =
                ap (λ rest. (k.ins ++ b ∷ []) ++ rest) (k.spilled over)
                ∙ append-nil (k.ins ++ b ∷ [])
                ∙ ap (λ ins. ins ++ b ∷ []) all_read;
            spilled = k.spilled;
          })
    | inr under ↦
        subst (Tracked (bytes ++ b ∷ []) outs)
          (sym (ap (λ o. if o then passing s b else keeping s b) under))
          (record {
            ins = k.ins;
            forwarded = subst (Forwarded event k.ins) (sym (append-nil outs)) k.forwarded;
            pending =
                sym (append_assoc k.ins s.buffer (b ∷ [])) ∙ ap (λ read. read ++ b ∷ []) k.pending;
            spilled = λ h. cc;
          })
  ]

  abbrev closing : Sse → List ℕ → Fed
  closing s output = (record s { overflow = false }, output)

  abbrev ending : Sse → List ℕ → Fed
  ending s output = (record ((finish event s).0) { overflow = false }, output ++ (finish event s).1)

  end_event-Tracked :
      (bytes outs output : List ℕ) (s : Sse)
      → Tracked bytes outs (s, output)
      → Tracked bytes outs (end_event event (s, output))
  unfolding finish translate_frame
  end_event-Tracked bytes outs output s k = elim (Bool-cases s.overflow) [
    | inl over ↦
        subst (Tracked bytes outs)
          (sym (ap (λ o. if o then closing s output else ending s output) over))
          (record {
            ins = k.ins;
            forwarded = k.forwarded;
            pending = k.pending;
            spilled = λ h. k.spilled over;
          })
    | inr under ↦
        subst (Tracked bytes outs)
          (sym (ap (λ o. if o then closing s output else ending s output) under))
          (record {
            ins = k.ins ++ s.buffer;
            forwarded =
                subst (Forwarded event (k.ins ++ s.buffer))
                  (append_assoc outs output (translate_frame event s.buffer))
                  (translate_frame-Forwarded k.ins (outs ++ output) s.buffer k.forwarded);
            pending = append-nil (k.ins ++ s.buffer) ∙ k.pending;
            spilled = λ h. refl;
          })
  ]

  new_line-Tracked :
      (bytes outs : List ℕ) (p : Fed) → Tracked bytes outs p → Tracked bytes outs (new_line p)
  new_line-Tracked bytes outs (s, output) k = record {
    ins = k.ins;
    forwarded = k.forwarded;
    pending = k.pending;
    spilled = k.spilled;
  }

  end_line-Tracked :
      (bytes outs output : List ℕ) (s : Sse)
      → Tracked bytes outs (s, output)
      → Tracked bytes outs (end_line event (s, output))
  end_line-Tracked bytes outs output s k = elim (Bool-cases s.line_nonempty) [
    | inl some_line ↦
        subst (λ p. Tracked bytes outs (new_line p))
          (sym (ap (λ o. if o then (s, output) else end_event event (s, output)) some_line))
          (new_line-Tracked bytes outs (s, output) k)
    | inr blank ↦
        subst (λ p. Tracked bytes outs (new_line p))
          (sym (ap (λ o. if o then (s, output) else end_event event (s, output)) blank))
          (new_line-Tracked bytes outs (end_event event (s, output))
            (end_event-Tracked bytes outs output s k))
  ]

  after_byte-Tracked :
      (b : ℕ) (bytes outs output : List ℕ) (s : Sse)
      → Tracked bytes outs (s, output)
      → Tracked bytes outs (after_byte event b (s, output))
  after_byte-Tracked b bytes outs output s k =
      if-either (Tracked bytes outs) (b == 10) (end_line-Tracked bytes outs output s k) (
        if-either (Tracked bytes outs) (b == 13) k (record {
          ins = k.ins;
          forwarded = k.forwarded;
          pending = k.pending;
          spilled = k.spilled;
        }))

  spill-Tracked :
      (bytes outs output : List ℕ) (s : Sse)
      → Tracked bytes outs (s, output)
      → Tracked bytes outs (spill (s, output))
  spill-Tracked bytes outs output s k =
      if-either (Tracked bytes outs) (leb limit (length s.buffer))
        (record {
          ins = k.ins ++ s.buffer;
          forwarded =
              subst (Forwarded event (k.ins ++ s.buffer)) (append_assoc outs output s.buffer)
                (passed k.ins (outs ++ output) s.buffer k.forwarded);
          pending = append-nil (k.ins ++ s.buffer) ∙ k.pending;
          spilled = λ h. refl;
        })
        k

  round-Tracked :
      (bytes outs : List ℕ) (s : Sse) (b : ℕ)
      → IsTracked event bytes outs s
      → Tracked (bytes ++ b ∷ []) outs (round event s b)
  unfolding round
  round-Tracked bytes outs s b k =
      let pushed = push s b in
      let read = after_byte event b pushed in
      spill-Tracked (bytes ++ b ∷ []) outs read.1 read.0 (
        after_byte-Tracked b (bytes ++ b ∷ []) outs pushed.1 pushed.0
          (push-Tracked bytes outs s b k))

  feed-Tracked :
      (more bytes outs : List ℕ) (s : Sse)
      → IsTracked event bytes outs s
      → Tracked (bytes ++ more) outs (feed event s more)
  unfolding feed
  feed-Tracked [] bytes outs s k =
      subst (λ read. IsTracked event read (outs ++ []) s) (sym (append-nil bytes))
        (subst (λ out. IsTracked event bytes out s) (sym (append-nil outs)) k)
  feed-Tracked (b ∷ more) bytes outs s k =
      let (t, output) = round event s b in
      let u = (feed event t more).0 in
      let rest = (feed event t more).1 in
      subst (λ read. IsTracked event read (outs ++ (output ++ rest)) u)
        (append_assoc bytes (b ∷ []) more)
        (subst (λ out. IsTracked event ((bytes ++ b ∷ []) ++ more) out u)
          (append_assoc outs output rest)
          (feed-Tracked more (bytes ++ b ∷ []) (outs ++ output) t (round-Tracked bytes outs s b k)))

  -- Whatever the stream, however it is cut into chunks and however long its events are, what is written
  -- until its end is what was read, except for the data of events that were translated.
  pub feed_chunks-Forwarded :
      (chunks : List (List ℕ)) → Forwarded event (concat chunks) (feed_chunks event default chunks)
  feed_chunks-Forwarded chunks =
      let s = (feed event default (concat chunks)).0 in
      let output = (feed event default (concat chunks)).1 in
      let fresh : IsTracked event [] [] default = record {
        ins = [];
        forwarded = start;
        pending = refl;
        spilled = λ h. refl;
      } in
      let k = feed-Tracked (concat chunks) [] [] default fresh in
      subst (Forwarded event (concat chunks)) (sym (feed_chunks-concat event chunks default)) (
        subst (λ read. Forwarded event read (output ++ translate_frame event s.buffer)) k.pending
          (translate_frame-Forwarded k.ins output s.buffer k.forwarded))
