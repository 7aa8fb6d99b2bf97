-- ===== src/Chat/Client.antt =====
-- A client of a chat stream, which puts the calls together from the chunks.
use hey_proxy.Base.{
  ℕ, zero, suc, String, false, Option, none, some, List, [], ◌∷◌, ◌++◌, ◌≡◌, refl, ap, arith,
  if◌then◌else◌, ◌==◌, length, get_elem?, Bool-cases, inl, inr,
}
use hey_proxy.Base.Text.{join}
use hey_proxy.Json.{Value}
use hey_proxy.Json.Access.{get, index, as_str, as_u64}
use hey_proxy.Json.Build.{at, unwrap_or}
use hey_proxy.Chat.Deltas.{State, chunk}

-- A call as a client has it.
pub record Call : Type 0 where
  pub id : Value
  pub name : Value
  pub arguments : String

abbrev pub change_call : ℕ → (Call → Call) → List Call → List Call
change_call i f [] = []
change_call zero f (c ∷ cs) = f c ∷ cs
change_call (suc i) f (c ∷ cs) = c ∷ change_call i f cs

abbrev pub text_of : Value → String
text_of v = unwrap_or (as_str v) ""

abbrev pub continued : String → Call → Call
continued text c = record c { arguments = join c.arguments text }

-- A piece with an identity starts the call of the next number; any other goes on with a call.
abbrev pub heard : ℕ → Option Value → Value → List Call → List Call
heard n (some id) function calls =
    if n == length calls
    then calls
      ++ record {
        id = id;
        name = index function "name";
        arguments = text_of (index function "arguments");
      }
        ∷ []
    else calls
heard n none function calls = change_call n (continued (text_of (index function "arguments"))) calls

abbrev pub hear_piece : Option ℕ → Value → List Call → List Call
hear_piece (some n) piece calls = heard n (get piece "id") (index piece "function") calls
hear_piece none piece calls = calls

abbrev pub hear_delta : Value → List Call → List Call
hear_delta delta calls =
    let piece = at (index delta "tool_calls") 0 in
    hear_piece (as_u64 (index piece "index")) piece calls

-- One chunk.
unfoldable pub hear : Value → List Call → List Call
hear c calls = hear_delta (index (at (index c "choices") 0) "delta") calls

unfoldable pub hear_all : List Value → List Call → List Call
hear_all [] calls = calls
hear_all (c ∷ cs) calls = hear_all cs (hear c calls)

pub hear_all-append :
    (cs ds : List Value) (calls : List Call)
    → hear_all (cs ++ ds) calls ≡ hear_all ds (hear_all cs calls)
unfolding hear_all
hear_all-append [] ds calls = refl
hear_all-append (c ∷ cs) ds calls = hear_all-append cs ds (hear c calls)

pub hear-chunk :
    (s : State) (delta : Value) (finish : Option String) (calls : List Call)
    → hear (chunk s delta finish) calls ≡ hear_delta delta calls
unfolding hear chunk
hear-chunk s delta finish calls = elim (Bool-cases s.include_usage) [
  | inl e ↦ rw e refl
  | inr e ↦ rw e refl
]

pub get_elem?-change_call :
    (i : ℕ) (f : Call → Call) (cs : List Call) (c : Call)
    → get_elem? cs i ≡ some c
    → get_elem? (change_call i f cs) i ≡ some (f c)
get_elem?-change_call i f [] c h = cc
get_elem?-change_call zero f (x ∷ cs) c h = cc
get_elem?-change_call (suc i) f (x ∷ cs) c h = get_elem?-change_call i f cs c h

pub get_elem?-change_call_other :
    (i j : ℕ) (f : Call → Call) (cs : List Call)
    → (i == j) ≡ false
    → get_elem? (change_call i f cs) j ≡ get_elem? cs j
get_elem?-change_call_other i j f [] ne = refl
get_elem?-change_call_other zero zero f (x ∷ cs) ne = cc
get_elem?-change_call_other zero (suc j) f (x ∷ cs) ne = refl
get_elem?-change_call_other (suc i) zero f (x ∷ cs) ne = refl
get_elem?-change_call_other (suc i) (suc j) f (x ∷ cs) ne =
    get_elem?-change_call_other i j f cs (ground (arith, ne))

pub length-change_call :
    (i : ℕ) (f : Call → Call) (cs : List Call) → length (change_call i f cs) ≡ length cs
length-change_call i f [] = refl
length-change_call zero f (x ∷ cs) = refl
length-change_call (suc i) f (x ∷ cs) = ap suc (length-change_call i f cs)
