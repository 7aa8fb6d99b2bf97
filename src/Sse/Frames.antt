-- ===== src/Sse/Frames.antt =====
-- src/proxy/sse.rs: the loop of `SseDecoder::feed` over the bytes, composed.
use mathlib.Core.List.{append_assoc}
use mathlib.Core.Path.{fun_ext}
use hey_proxy.Base.{ℕ, ◌≡◌, refl, sym, ap, ◌∙◌, Option, List, [], ◌∷◌, ◌++◌, ok, err}
use hey_proxy.Json.{Value}
use hey_proxy.Sse.{SseDecoder, Decoded, behind, and_then, step, feed_bytes}

behind-nil : (m : Decoded) → behind [] m ≡ m
behind-nil (ok (t, es)) = refl
behind-nil (err e) = refl

pub and_then-ok : (s : SseDecoder) (k : SseDecoder → Decoded) → and_then (ok (s, [])) k ≡ k s
and_then-ok s k = behind-nil (k s)

pub behind-append :
    (es fs : List Value) (m : Decoded) → behind (es ++ fs) m ≡ behind es (behind fs m)
behind-append es fs (ok (t, gs)) = rw (append_assoc es fs gs)
behind-append es fs (err e) = refl

behind-and_then :
    (es : List Value) (m : Decoded) (g : SseDecoder → Decoded)
    → and_then (behind es m) g ≡ behind es (and_then m g)
behind-and_then es (ok (t, fs)) g = behind-append es fs (g t)
behind-and_then es (err e) g = refl

pub and_then_assoc :
    (m : Decoded) (f g : SseDecoder → Decoded)
    → and_then (and_then m f) g ≡ and_then m (λ t. and_then (f t) g)
and_then_assoc (err e) f g = refl
and_then_assoc (ok (s, es)) f g = behind-and_then es (f s) g

module _ (from_slice : List ℕ → Option Value) where
  pub feed_bytes-append :
      (xs ys : List ℕ) (s : SseDecoder)
      → feed_bytes from_slice s (xs ++ ys)
        ≡ and_then (feed_bytes from_slice s xs) (λ t. feed_bytes from_slice t ys)
  unfolding feed_bytes
  feed_bytes-append [] ys s = sym (and_then-ok s (λ t. feed_bytes from_slice t ys))
  feed_bytes-append (x ∷ xs) ys s =
      ap (and_then (step from_slice s x)) (fun_ext λ t. feed_bytes-append xs ys t)
      ∙ sym (
          and_then_assoc (step from_slice s x) (λ t. feed_bytes from_slice t xs)
            (λ t. feed_bytes from_slice t ys))
