-- ===== src/Capacity/Stream/Kept.antt =====
-- src/proxy/capacity.rs, `Sse`: the bytes written and held while no event is translated.
use mathlib.Core.List.{append-nil}
use hey_proxy.Base.{
  ℕ, ◌≡◌, refl, sym, ap, ◌∙◌, inl, inr, Bool, true, false, Option, none, List, [], ◌∷◌, ◌++◌, leb,
  if◌then◌else◌, length, All, Bool-cases, Option-cases,
}
use hey_proxy.Capacity.Stream.{
  Sse, Fed, limit, push, spill, end_event, end_line, translate_frame, with_event, finish,
  replace_data, split_inclusive, split, gather,
}
use hey_proxy.Capacity.Stream.Order.{cut}

-- The data of an event.
abbrev pub data_of : List ℕ → List ℕ
data_of frame = gather [] (split [] frame)

-- The buffer holds the event so far, `cur`, unless it was passed on.
pub record Holds (cur : List ℕ) (s : Sse) : Type 0 where
  pub under : s.overflow ≡ false → s.buffer ≡ cur
  pub over : s.overflow ≡ true → s.buffer ≡ []

-- Either branch of a test.
pub if-cases :
    {A : Type 0} (P : A → Type 0) (x y : A) (b : Bool)
    → (b ≡ true → P x)
    → (b ≡ false → P y)
    → P (if b then x else y)
if-cases P x y true h k = h refl
if-cases P x y false h k = k refl

-- Behind the byte that was pushed, on a line that was empty or not before.
pub record IsPushed (nonempty : Bool) (cur read : List ℕ) (p : Fed) : Type 0 where
  pub written : p.1 ++ p.0.buffer ≡ read
  pub held : Holds cur p.0
  pub line : p.0.line_nonempty ≡ nonempty

pub push-IsPushed :
    (cur : List ℕ) (s : Sse) (b : ℕ)
    → Holds cur s
    → IsPushed s.line_nonempty (cur ++ b ∷ []) (s.buffer ++ b ∷ []) (push s b)
push-IsPushed cur s b k =
    if-cases (IsPushed s.line_nonempty (cur ++ b ∷ []) (s.buffer ++ b ∷ [])) (s, b ∷ [])
      (record s { buffer = s.buffer ++ b ∷ [] }, []) s.overflow
      (λ over. record {
        written =
            ap (λ buffer. b ∷ buffer) (k.over over)
            ∙ ap (λ buffer. buffer ++ b ∷ []) (sym (k.over over));
        held = record { under = λ h. cc; over = k.over };
        line = refl;
      })
      (λ under. record {
        written = refl;
        held = record {
          under = λ h. ap (λ buffer. buffer ++ b ∷ []) (k.under under);
          over = λ h. cc;
        };
        line = refl;
      })

module _ (event : List ℕ → Option (List ℕ)) where
  -- An event that is not translated.
  abbrev pub IsPlain : List ℕ → Type 0
  IsPlain frame = event (data_of frame) ≡ none

  translate_frame-IsPlain : (frame : List ℕ) → IsPlain frame → translate_frame event frame ≡ frame
  unfolding translate_frame
  translate_frame-IsPlain frame h = ap (with_event frame) h

  translate_frame-nil : translate_frame event [] ≡ []
  unfolding translate_frame split_inclusive replace_data
  translate_frame-nil = elim (Option-cases (event (data_of []))) [
    | inl h ↦ ap (with_event []) h
    | inr (new, h) ↦ ap (with_event []) h
  ]

  pub translate_frame-Holds :
      (cur : List ℕ) (s : Sse)
      → Holds cur s
      → IsPlain cur
      → translate_frame event s.buffer ≡ s.buffer
  translate_frame-Holds cur s k plain = elim (Bool-cases s.overflow) [
    | inl over ↦ ap (translate_frame event) (k.over over) ∙ translate_frame-nil ∙ sym (k.over over)
    | inr under ↦
        ap (translate_frame event) (k.under under)
        ∙ translate_frame-IsPlain cur plain
        ∙ sym (k.under under)
  ]

  -- A part of the loop: the output and the buffer are the bytes `read`, and the events behind are plain.
  pub record IsKept (read bs : List ℕ) (p : Fed) : Type 0 where
    pub cur : List ℕ
    pub written : p.1 ++ p.0.buffer ≡ read
    pub held : Holds cur p.0
    pub rest : All IsPlain (cut p.0.line_nonempty cur bs)

  -- At the end of an event, which is plain.
  end_event-IsKept :
      (cur read bs output : List ℕ) (s : Sse)
      → output ++ s.buffer ≡ read
      → Holds cur s
      → IsPlain cur
      → All IsPlain (cut false [] bs)
      → (let p = end_event event (s, output) in
          IsKept read bs (record p.0 { line_nonempty = false }, p.1))
  unfolding finish
  end_event-IsKept cur read bs output s written k plain rest =
      let Goal : Fed → Type 0 = λ p. IsKept read bs (record p.0 { line_nonempty = false }, p.1) in
      if-cases Goal (record s { overflow = false }, output)
        (record ((finish event s).0) { overflow = false }, output ++ (finish event s).1) s.overflow
        (λ over. record {
          cur = [];
          written = written;
          held = record { under = λ h. k.over over; over = λ h. k.over over };
          rest = rest;
        })
        (λ under. record {
          cur = [];
          written =
              append-nil (output ++ translate_frame event s.buffer)
              ∙ ap (λ frame. output ++ frame) (translate_frame-Holds cur s k plain)
              ∙ written;
          held = record { under = λ h. refl; over = λ h. refl };
          rest = rest;
        })

  pub end_line-IsKept :
      (cur read bs output : List ℕ) (s : Sse)
      → output ++ s.buffer ≡ read
      → Holds cur s
      → (s.line_nonempty ≡ true → All IsPlain (cut false cur bs))
      → (s.line_nonempty ≡ false → IsPlain cur × All IsPlain (cut false [] bs))
      → IsKept read bs (end_line event (s, output))
  end_line-IsKept cur read bs output s written k line blank =
      let Goal : Fed → Type 0 = λ p. IsKept read bs (record p.0 { line_nonempty = false }, p.1) in
      if-cases Goal (s, output) (end_event event (s, output)) s.line_nonempty
        (λ e. record {
          cur = cur;
          written = written;
          held = record { under = k.under; over = k.over };
          rest = line e;
        })
        (λ e.
          let (plain, rest) = blank e in end_event-IsKept cur read bs output s written k plain rest)

  pub spill-IsKept :
      (read bs output : List ℕ) (s : Sse)
      → IsKept read bs (s, output)
      → IsKept read bs (spill (s, output))
  spill-IsKept read bs output s k =
      if-cases (IsKept read bs) (record s { buffer = []; overflow = true }, output ++ s.buffer)
        (s, output) (leb limit (length s.buffer))
        (λ full. record {
          cur = k.cur;
          written = append-nil (output ++ s.buffer) ∙ k.written;
          held = record { under = λ h. cc; over = λ h. refl };
          rest = k.rest;
        })
        (λ room. k)
