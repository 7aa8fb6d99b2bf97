-- ===== src/Partial/Segments.antt =====
-- src/gemini/partial.rs, `parse_path`: its fuel, and the limit on its segments.
use Prim.Native.Char.{code}
use mathlib.Core.Path.{subst}
use hey_proxy.Base.{
  ℕ, zero, suc, ◌+◌, ◌≤◌, ◌<◌, ◌≢◌, inl, inr, String, Bool, true, false, ◌||◌, Option, none, some,
  List, [], ◌∷◌, arith, ltb, ltb-eq-false, ◌==◌, length, if◌then◌else◌, str_eq, Bool-cases, Result,
  ok, err, ◌>>=◌,
}
use hey_proxy.Partial.Path.{
  Segment, key, at, PathError, out_of_fuel, bad_quoted, bad_index, too_large, empty_key, bad_path,
  take_name, take_digits, take_quoted, closed, close_quoted, close_index, bracket, dotted,
  one_segment, max_segments, parse_segments, not_root, parse_path,
}

-- Any error but the model's own.
abbrev Usual : PathError → Type 0
Usual out_of_fuel = ⊥
Usual _ = Unit {0}

abbrev Plain : {A : Type 0} → Result PathError A → Type 0
Plain (ok a) = Unit {0}
Plain (err e) = Usual e

either-Plain :
    {A : Type 0} (x y : Result PathError A) (b : Bool)
    → Plain x
    → Plain y
    → Plain (if b then x else y)
either-Plain x y true h k = h
either-Plain x y false h k = k

closed-Plain :
    (e : PathError) (segment : Segment) (s : String) → Usual e → Plain (closed e segment s)
closed-Plain e segment String.[] h = h
closed-Plain e segment (String.◌∷◌ c s) h =
    either-Plain (ok (segment, s)) (err e) (code c == 93) tt h

close_quoted-Plain : (o : Option (String × String)) → Plain (close_quoted o)
close_quoted-Plain (some (name, rest)) = closed-Plain bad_quoted (key name) rest tt
close_quoted-Plain none = tt

within-Plain :
    (i : ℕ) (m : Result PathError (Segment × String))
    → Plain m
    → Plain (m >>= λ r. if ltb 65535 i then err too_large else ok r)
within-Plain i (ok r) h = either-Plain (err too_large) (ok r) (ltb 65535 i) tt tt
within-Plain i (err e) h = h

close_index-Plain : (r : Option ℕ × String) → Plain (close_index r)
close_index-Plain (none, rest) = tt
close_index-Plain (some i, rest) =
    within-Plain i (closed bad_index (at i) rest) (closed-Plain bad_index (at i) rest tt)

bracket-Plain : (s : String) → Plain (bracket s)
bracket-Plain String.[] = tt
bracket-Plain (String.◌∷◌ c s) =
    either-Plain (close_quoted (take_quoted (code c) s))
      (close_index (take_digits (String.◌∷◌ c s) 0 none)) (code c == 39 || code c == 34)
      (close_quoted-Plain (take_quoted (code c) s))
      (close_index-Plain (take_digits (String.◌∷◌ c s) 0 none))

dotted-Plain : (r : String × String) → Plain (dotted r)
dotted-Plain (name, rest) =
    either-Plain (err empty_key) (ok (key name, rest)) (str_eq name "") tt tt

one_segment-Plain : (c : ℕ) (s : String) → Plain (one_segment c s)
one_segment-Plain c s =
    either-Plain (dotted (take_name s)) (if c == 91 then bracket s else err bad_path) (c == 46)
      (dotted-Plain (take_name s))
      (either-Plain (bracket s) (err bad_path) (c == 91) (bracket-Plain s) tt)

-- Segments that fit behind `count` others, or a refusal of the path.
abbrev Fits : ℕ → Result PathError (List Segment) → Type 0
Fits count (ok segments) = count + length segments ≤ max_segments
Fits count (err e) = Usual e

Fits-behind :
    (count : ℕ) (segment : Segment) (m : Result PathError (List Segment))
    → Fits (suc count) m
    → Fits count (m >>= λ segments. ok (segment ∷ segments))
Fits-behind count segment (ok segments) h = omega (arith, h)
Fits-behind count segment (err e) h = h

Fits-bind :
    {A : Type 0} (count : ℕ) (m : Result PathError A) (f : A → Result PathError (List Segment))
    → Plain m
    → ((a : A) → Fits count (f a))
    → Fits count (m >>= f)
Fits-bind count (ok a) f h k = k a
Fits-bind count (err e) f h k = h

parse_segments-Fits :
    (fuel count : ℕ) (s : String)
    → count ≤ max_segments
    → max_segments < fuel + count
    → Fits count (parse_segments fuel count s)
unfolding parse_segments
parse_segments-Fits zero count s few enough = omega (arith, few, enough)
parse_segments-Fits (suc fuel) count String.[] few enough = omega (arith, few)
parse_segments-Fits (suc fuel) count (String.◌∷◌ c s) few enough =
    Fits-bind count (one_segment (code c) s) _ (one_segment-Plain (code c) s) λ r.
      elim (Bool-cases (ltb max_segments (suc count))) [
        | inl deep ↦ rw deep tt
        | inr room ↦ rw room (
            Fits-behind count r.0 (parse_segments fuel (suc count) r.1) (
              parse_segments-Fits fuel (suc count) r.1 (ltb-eq-false _ _ room)
                (omega (arith, enough))))
      ]

rooted-Fits : (m : Result PathError (List Segment)) → Fits 0 m → Fits 0 (m >>= not_root)
rooted-Fits (ok []) h = tt
rooted-Fits (ok (segment ∷ segments)) h = h
rooted-Fits (err e) h = h

parse_path-Fits : (s : String) → Fits 0 (parse_path s)
unfolding parse_path
parse_path-Fits String.[] = tt
parse_path-Fits (String.◌∷◌ c s) = elim (Bool-cases (code c == 36)) [
  | inl rooted ↦ rw rooted (
      rooted-Fits (parse_segments (suc max_segments) 0 s)
        (parse_segments-Fits (suc max_segments) 0 s (omega arith) (omega arith)))
  | inr other ↦ rw other tt
]

-- The fuel of `parse_path` is enough.
parse_path-ne-out_of_fuel : (s : String) → parse_path s ≢ err out_of_fuel
parse_path-ne-out_of_fuel s e = subst (Fits 0) e (parse_path-Fits s)
