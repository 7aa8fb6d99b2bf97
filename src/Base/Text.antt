-- ===== src/Base/Text.antt =====
-- Text and bytes: prefixes, substrings and case folding, as `str` and `[u8]` have them.
use text.Mathlib.TextLemmas.{nil-append, cons-append}
use Prim.Native.Nat.{ℕ, ◌+◌}
use Prim.Native.Char.{code}
use Prim.Native.String
use Prim.Native.String.{String}
use mathlib.Core.Path.{◌≡◌}
use mathlib.Core.Bool.{Bool, true, false, ◌&&◌, ◌||◌}
use mathlib.Core.List.{List, [], ◌∷◌, ◌++◌}
use mathlib.Core.Option.{Option, none, some}
use hey_proxy.Base.Lists.{is_empty}
use text.Mathlib.TextEquality.{Char-path}
use mathlib.Core.Path.{ap, ◌∙◌}
use mathlib.Core.Logic.{inl, inr}
use native.Mathlib.Omega.{arith}
use hey_proxy.Base.Tests.{ltb, leb, ◌==◌, ==_refl, ==_iff, if◌then◌else◌, Bool-cases}

-- The code points of a text.
abbrev pub codes : String → List ℕ
codes String.[] = []
codes (String.◌∷◌ c s) = code c ∷ codes s

-- `format!("{a}{b}")`
abbrev pub join : String → String → String
join a b = String.◌++◌ a b

pub codes-join : (a b : String) → codes (join a b) ≡ codes a ++ codes b
codes-join String.[] b = ap codes (nil-append b)
codes-join (String.◌∷◌ c a) b =
    ap codes (cons-append c a b) ∙ ap (λ cs. code c ∷ cs) (codes-join a b)

-- `str::strip_prefix`
unfoldable pub strip_prefix : String → String → Option String
strip_prefix String.[] s = some s
strip_prefix (String.◌∷◌ c p) String.[] = none
strip_prefix (String.◌∷◌ c p) (String.◌∷◌ d s) = if code c == code d then strip_prefix p s else none

-- `text.starts_with(p)`
abbrev pub has_prefix : String → String → Bool
has_prefix p text = elim (strip_prefix p text) [ some rest ↦ true | none ↦ false ]

pub strip_prefix-join : (p s : String) → strip_prefix p (join p s) ≡ some s
unfolding strip_prefix
strip_prefix-join String.[] s = rw nil-append
strip_prefix-join (String.◌∷◌ c p) s = rw (cons-append, ==_refl (code c)) (strip_prefix-join p s)

pub join_of_strip_prefix : (p s r : String) → strip_prefix p s ≡ some r → join p r ≡ s
unfolding strip_prefix
join_of_strip_prefix String.[] s r h = rw nil-append cc
join_of_strip_prefix (String.◌∷◌ c p) String.[] r h = cc
join_of_strip_prefix (String.◌∷◌ c p) (String.◌∷◌ d s) r h = elim (Bool-cases (code c == code d)) [
  | inl e ↦
      let rest : strip_prefix p s ≡ some r = ground (arith, e, h) in
      let same : c ≡ d = Char-path c d ((==_iff (code c) (code d)).0 e) in
      cons-append c p r
      ∙ (ap (λ t. String.◌∷◌ c t) (join_of_strip_prefix p s r rest) ∙ ap (λ x. String.◌∷◌ x s) same)
  | inr e ↦ absurd (ground (arith, e, h))
]

-- `<[u8]>::strip_prefix`
unfoldable pub strip_bytes : List ℕ → List ℕ → Option (List ℕ)
strip_bytes [] s = some s
strip_bytes (c ∷ p) [] = none
strip_bytes (c ∷ p) (d ∷ s) = if c == d then strip_bytes p s else none

-- `<[u8]>::starts_with`
unfoldable pub starts_with : List ℕ → List ℕ → Bool
starts_with [] s = true
starts_with (c ∷ p) [] = false
starts_with (c ∷ p) (d ∷ s) = c == d && starts_with p s

-- `str::contains`
unfoldable pub contains : List ℕ → List ℕ → Bool
unfolding starts_with
contains p [] = starts_with p []
contains p (d ∷ s) = starts_with p (d ∷ s) || contains p s

-- `to_ascii_lowercase` of one character
abbrev pub to_lower : ℕ → ℕ
to_lower c = if leb b'A' c && leb c b'Z' then c + 32 else c

-- `char::is_whitespace`: the characters with the property White_Space
unfoldable pub is_whitespace : ℕ → Bool
is_whitespace c =
    (leb 9 c && leb c 13)
    || c == 32
    || c == 0x85
    || c == 0xa0
    || c == 0x1680
    || (leb 0x2000 c && leb c 0x200a)
    || c == 0x2028
    || c == 0x2029
    || c == 0x202f
    || c == 0x205f
    || c == 0x3000

-- `char::is_control`: the general category Cc
unfoldable pub is_control : ℕ → Bool
is_control c = ltb c 32 || (leb 127 c && leb c 159)

-- `==` of byte strings
unfoldable pub equal_bytes : List ℕ → List ℕ → Bool
equal_bytes [] [] = true
equal_bytes [] (_ ∷ _) = false
equal_bytes (_ ∷ _) [] = false
equal_bytes (a ∷ xs) (b ∷ ys) = a == b && equal_bytes xs ys

-- `<[u8]>::ends_with`, and `str::ends_with` on code points
unfoldable pub ends_with : List ℕ → List ℕ → Bool
ends_with suffix [] = is_empty suffix
ends_with suffix (b ∷ bs) = equal_bytes suffix (b ∷ bs) || ends_with suffix bs
