-- ===== src/Messages/Stream/Fidelity.antt =====
-- What is told: no piece of text, thinking or arguments is lost, repeated or moved.
use mathlib.Core.Path.{subst}
use mathlib.Core.List.{append-nil}
use hey_proxy.Base.{
  ℕ, String, inl, inr, Option, none, some, List, [], ◌∷◌, ◌++◌, ◌≡◌, refl, sym, ap, ◌∙◌, ok, err,
  Option-cases, Bool-cases, ◌>>=◌, ◌>>◌, if◌then◌else◌,
}
use hey_proxy.Base.Maps.{lookup, lookup-insert_self}
use hey_proxy.Json.{Value}
use hey_proxy.Json.Access.{index, as_u64, as_str}
use hey_proxy.Json.Build.{filled, cons_some, filter_map, filter_map-append, each, at}
use hey_proxy.Messages.Codec.{Codec}
use hey_proxy.Messages.Response.{Fallible}
use hey_proxy.Messages.Protocol.{Kind, EventType, typed, event_type, delta_kind, same_kind}
use hey_proxy.Messages.Steps.{behind, and_then}
use hey_proxy.Messages.Events.{block_delta as delta_event, thinking_delta, text_delta, input_delta}
use hey_proxy.Messages.Stream.{
  State, Step, no_error, begin, begin_as, note, think, thinking_index, say, text_index, block,
  is_identified, open_unless, push_arguments, add_arguments, call_at, call_tool, call_tools, event,
}

-- The text that a change of a block of a kind carries.
abbrev text_of : Kind → Value → Option String
text_of Kind.text delta = as_str (index delta "text")
text_of Kind.thinking delta = as_str (index delta "thinking")
text_of Kind.tool_use delta = as_str (index delta "partial_json")
text_of Kind.redacted delta = none

abbrev for_kind : Kind → Option Kind → Value → Option String
for_kind k (some of) delta = if same_kind of k then text_of k delta else none
for_kind k none delta = none

abbrev from_type : Kind → Option EventType → Value → Option String
from_type k (some EventType.block_delta) e =
    for_kind k (typed delta_kind (index e "delta")) (index e "delta")
from_type k _ e = none

-- The piece of a kind that a client gets from an event.
abbrev piece : Kind → Value → Option String
piece k e = from_type k (typed event_type e) e

abbrev pub pieces : Kind → List Value → List String
pieces k es = filter_map (piece k) es

abbrev one : Option String → List String
one (some text) = text ∷ []
one none = []

-- The pieces of a kind in one chunk, in the order in which they are to be told.
abbrev pub pieces_in : Kind → Value → List String
pieces_in Kind.text delta =
    one (filled (as_str (index delta "content"))) ++ one (filled (as_str (index delta "refusal")))
pieces_in Kind.thinking delta = one (filled (as_str (index delta "reasoning")))
pieces_in Kind.tool_use delta =
    filter_map (λ call. filled (as_str (index (index call "function") "arguments")))
      (each (index delta "tool_calls"))
pieces_in Kind.redacted delta = []

abbrev Tells : Kind → Step → List String → Type 0
Tells k (err e) texts = Unit {0}
Tells k (ok (s, es)) texts = pieces k es ≡ texts

behind-Tells :
    (k : Kind) (es : List Value) (m : Step) (xs ys : List String)
    → pieces k es ≡ xs
    → Tells k m ys
    → Tells k (behind es m) (xs ++ ys)
behind-Tells k es (err e) xs ys h g = tt
behind-Tells k es (ok (s, fs)) xs ys h g =
    filter_map-append (piece k) es fs ∙ (ap (λ zs. zs ++ pieces k fs) h ∙ ap (λ zs. xs ++ zs) g)

and_then-Tells :
    (k : Kind) (m : Step) (next : State → Step) (xs ys : List String)
    → Tells k m xs
    → ((s : State) → Tells k (next s) ys)
    → Tells k (and_then m next) (xs ++ ys)
and_then-Tells k (err e) next xs ys h g = tt
and_then-Tells k (ok (s, es)) next xs ys h g = behind-Tells k es (next s) xs ys h (g s)

-- A piece of another kind is not told.
abbrev of_kind : Kind → Kind → Option String → Option String
of_kind of k o = if same_kind of k then o else none

abbrev only : Kind → Kind → Option String → List String
only of k o = one (of_kind of k o)

only-none : (of k : Kind) → [] ≡ only of k none
only-none of k = elim (Bool-cases (same_kind of k)) [ inl e ↦ rw e refl | inr e ↦ rw e refl ]

thinking_tells :
    (k : Kind) (i : ℕ) (text : String)
    → pieces k (delta_event i (thinking_delta text) ∷ []) ≡ only Kind.thinking k (some text)
thinking_tells Kind.text i text = refl
thinking_tells Kind.thinking i text = refl
thinking_tells Kind.tool_use i text = refl
thinking_tells Kind.redacted i text = refl

text_tells :
    (k : Kind) (i : ℕ) (text : String)
    → pieces k (delta_event i (text_delta text) ∷ []) ≡ only Kind.text k (some text)
text_tells Kind.text i text = refl
text_tells Kind.thinking i text = refl
text_tells Kind.tool_use i text = refl
text_tells Kind.redacted i text = refl

input_tells :
    (k : Kind) (i : ℕ) (text : String)
    → pieces k (delta_event i (input_delta text) ∷ []) ≡ only Kind.tool_use k (some text)
input_tells Kind.text i text = refl
input_tells Kind.thinking i text = refl
input_tells Kind.tool_use i text = refl
input_tells Kind.redacted i text = refl

think-Tells :
    (k : Kind) (o : Option String) (s : State) → Tells k (think o s) (only Kind.thinking k o)
unfolding think thinking_index block
think-Tells k none s = only-none Kind.thinking k
think-Tells k (some text) s = elim (Option-cases s.thinking) [
  | inl e ↦ rw e (thinking_tells k s.blocks text)
  | inr (i, e) ↦ rw e (thinking_tells k i text)
]

say-Tells : (k : Kind) (o : Option String) (s : State) → Tells k (say o s) (only Kind.text k o)
unfolding say text_index block
say-Tells k none s = only-none Kind.text k
say-Tells k (some text) s = elim (Option-cases s.text) [
  | inl e ↦ rw e (text_tells k s.blocks text)
  | inr (i, e) ↦ rw e (text_tells k i text)
]

-- A call is open, and nothing was told by opening it.
abbrev Opens : Kind → ℕ → Step → Type 0
Opens k key (err e) = Unit {0}
Opens k key (ok (s, es)) = (pieces k es ≡ []) × (v : ℕ × String) × (lookup key s.tools ≡ some v)

open_unless-Opens :
    (k : Kind) (entry : Option (ℕ × String)) (key : ℕ) (call : Value) (s : State)
    → lookup key s.tools ≡ entry
    → Opens k key (open_unless entry key call s)
unfolding open_unless block
open_unless-Opens k (some entry) key call s e = (refl, entry, e)
open_unless-Opens k none key call s e = elim (Bool-cases (is_identified call)) [
  | inl identified ↦
      let first : ℕ × String = (s.blocks, "") in
      rw identified (refl, first, lookup-insert_self key first s.tools)
  | inr unidentified ↦ rw unidentified tt
]

add_arguments-Tells :
    (k : Kind) (key : ℕ) (o : Option String) (s : State) (v : ℕ × String)
    → lookup key s.tools ≡ some v
    → Tells k (add_arguments key o s) (only Kind.tool_use k o)
unfolding add_arguments push_arguments
add_arguments-Tells k key none s v e = only-none Kind.tool_use k
add_arguments-Tells k key (some text) s (i, args) e =
    subst (λ entry. Tells k (push_arguments entry key text s) (only Kind.tool_use k (some text)))
      (sym e) (input_tells k i text)

opened-Tells :
    (k : Kind) (key : ℕ) (m : Step) (o : Option String)
    → Opens k key m
    → Tells k (and_then m (add_arguments key o)) (only Kind.tool_use k o)
opened-Tells k key (err e) o h = tt
opened-Tells k key (ok (s, es)) o (h, v, e) =
    behind-Tells k es (add_arguments key o s) [] (only Kind.tool_use k o) h
      (add_arguments-Tells k key o s v e)

abbrev arguments_of : Value → Option String
arguments_of call = filled (as_str (index (index call "function") "arguments"))

call_at-Tells :
    (k : Kind) (key : Option ℕ) (call : Value) (s : State)
    → Tells k (call_at key call s) (only Kind.tool_use k (arguments_of call))
unfolding call_at
call_at-Tells k none call s = tt
call_at-Tells k (some key) call s =
    opened-Tells k key (open_unless (lookup key s.tools) key call s) (arguments_of call)
      (open_unless-Opens k (lookup key s.tools) key call s refl)

abbrev all_arguments : Kind → List Value → List String
all_arguments k calls = filter_map (λ call. of_kind Kind.tool_use k (arguments_of call)) calls

one-append : (o : Option String) (xs : List String) → one o ++ xs ≡ cons_some o xs
one-append none xs = refl
one-append (some x) xs = refl

call_tools-Tells :
    (k : Kind) (calls : List Value) (s : State)
    → Tells k (call_tools calls s) (all_arguments k calls)
unfolding call_tools call_tool
call_tools-Tells k [] s = refl
call_tools-Tells k (call ∷ calls) s =
    let o = of_kind Kind.tool_use k (arguments_of call) in
    subst (Tells k (call_tools (call ∷ calls) s)) (one-append o (all_arguments k calls)) (
      and_then-Tells k (call_at (as_u64 (index call "index")) call s) (call_tools calls)
        (only Kind.tool_use k (arguments_of call)) (all_arguments k calls)
        (call_at-Tells k (as_u64 (index call "index")) call s) (call_tools-Tells k calls))

no_arguments : (calls : List Value) → filter_map {B = String} (λ (call : Value). none) calls ≡ []
no_arguments [] = refl
no_arguments (call ∷ calls) = no_arguments calls

-- The parts of a chunk in the order in which they are told.
abbrev in_order : Kind → Value → List String
in_order k delta =
    only Kind.thinking k (filled (as_str (index delta "reasoning")))
    ++ (only Kind.text k (filled (as_str (index delta "content")))
        ++ (only Kind.text k (filled (as_str (index delta "refusal")))
            ++ all_arguments k (each (index delta "tool_calls"))))

in_order-pieces_in : (k : Kind) (delta : Value) → in_order k delta ≡ pieces_in k delta
in_order-pieces_in Kind.text delta =
    ap
      (λ rest.
        one (filled (as_str (index delta "content")))
        ++ (one (filled (as_str (index delta "refusal"))) ++ rest))
      (no_arguments (each (index delta "tool_calls")))
    ∙ ap (λ rest. one (filled (as_str (index delta "content"))) ++ rest)
        (append-nil (one (filled (as_str (index delta "refusal")))))
in_order-pieces_in Kind.thinking delta =
    ap (λ rest. one (filled (as_str (index delta "reasoning"))) ++ rest)
      (no_arguments (each (index delta "tool_calls")))
    ∙ append-nil (one (filled (as_str (index delta "reasoning"))))
in_order-pieces_in Kind.tool_use delta = refl
in_order-pieces_in Kind.redacted delta = no_arguments (each (index delta "tool_calls"))

begin_as-Tells :
    (k : Kind) (id : Option String) (model : String) (s : State) → Tells k (begin_as id model s) []
unfolding begin_as
begin_as-Tells k (some id) model s = refl
begin_as-Tells k none model s = tt

begin-Tells :
    (k : Kind) (chunk : Value) (model : String) (s : State) → Tells k (begin chunk model s) []
unfolding begin
begin-Tells k chunk model s = elim (Bool-cases s.started) [
  | inl e ↦
      subst
        (λ b. Tells k (if b then ok (s, []) else begin_as (as_str (index chunk "id")) model s) [])
        (sym e) refl
  | inr e ↦
      subst
        (λ b. Tells k (if b then ok (s, []) else begin_as (as_str (index chunk "id")) model s) [])
        (sym e) (begin_as-Tells k (as_str (index chunk "id")) model s)
]

quiet-Tells : (k : Kind) (m : Fallible State) → Tells k (m >>= λ t. ok (t, [])) []
quiet-Tells k (ok s) = refl
quiet-Tells k (err e) = tt

then-Tells :
    (k : Kind) (m : Fallible (Unit {0})) (n : Step) (xs : List String)
    → Tells k n xs
    → Tells k (m >> n) xs
then-Tells k (ok u) n xs h = h
then-Tells k (err e) n xs h = tt

event-Tells :
    (codec : Codec) (k : Kind) (chunk : Value) (model : String) (s : State)
    → Tells k
        (event codec chunk model s)
        (in_order k (index (at (index chunk "choices") 0) "delta"))
unfolding event
event-Tells codec k chunk model s =
    let delta = index (at (index chunk "choices") 0) "delta" in
    then-Tells k (no_error chunk) _ _ (
      and_then-Tells k (begin chunk model s) _ [] _ (begin-Tells k chunk model s) λ s1.
        and_then-Tells k _ _ [] _ (quiet-Tells k (note codec chunk s1)) λ s2.
          and_then-Tells k (think (filled (as_str (index delta "reasoning"))) s2) _ _ _
            (think-Tells k (filled (as_str (index delta "reasoning"))) s2)
            λ s3.
              and_then-Tells k (say (filled (as_str (index delta "content"))) s3) _ _ _
                (say-Tells k (filled (as_str (index delta "content"))) s3)
                λ s4.
                  and_then-Tells k (say (filled (as_str (index delta "refusal"))) s4) _ _ _
                    (say-Tells k (filled (as_str (index delta "refusal"))) s4)
                    λ s5. call_tools-Tells k (each (index delta "tool_calls")) s5)

Tells-eq_ok :
    (k : Kind) (m : Step) (xs : List String) {t : State} {es : List Value}
    → Tells k m xs
    → m ≡ ok (t, es)
    → pieces k es ≡ xs
Tells-eq_ok k (ok (s, fs)) xs h e = cc
Tells-eq_ok k (err x) xs h e = cc

-- Where a chunk is taken, the changes of the blocks of each kind that its events carry are exactly
-- the chunk's pieces of that kind that are not empty, in order: its content and its refusal as text,
-- its reasoning as thinking, and the arguments of its calls as input of tools.
pub event-pieces :
    (codec : Codec) (k : Kind) (chunk : Value) (model : String) (s t : State) (es : List Value)
    → event codec chunk model s ≡ ok (t, es)
    → pieces k es ≡ pieces_in k (index (at (index chunk "choices") 0) "delta")
event-pieces codec k chunk model s t es e =
    let delta = index (at (index chunk "choices") 0) "delta" in
    Tells-eq_ok k (event codec chunk model s) (in_order k delta) (event-Tells codec k chunk model s)
      e
    ∙ in_order-pieces_in k delta
