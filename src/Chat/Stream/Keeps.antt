-- ===== src/Chat/Stream/Keeps.antt =====
-- What a step of the chat stream keeps: the agreement of the client's calls with the state, and a
-- property of the state's calls.
use mathlib.Core.Path.{subst}
use hey_proxy.Base.{
  ℕ, ◌+◌, ◌-◌, ◌^◌, min, String, Bool, true, false, Option, none, some, List, [], ◌∷◌, ◌≡◌, refl,
  sym, ◌∙◌, if◌then◌else◌, leb, Bool-cases, inl, inr, ok, err, ◌>>=◌, ◌>>◌,
}
use hey_proxy.Base.Text.{join, strip_prefix, join_of_strip_prefix}
use hey_proxy.Base.Maps.{find_key}
use hey_proxy.Json.{Value, string}
use hey_proxy.Json.Build.{obj, is_blank_text, unwrap_or}
use hey_proxy.Messages.Steps.{behind, and_then}
use hey_proxy.Messages.Response.{Fallible, or_err}
use hey_proxy.Chat.Deltas.{
  State, Step, Tool, limit, chunk, retain, send, unsent, send_text, text, summary, send_summary,
  same_text_key, same_summary_key,
}
use hey_proxy.Chat.Client.{Call, hear, hear_all, hear_all-append, hear_delta, hear-chunk}
use hey_proxy.Chat.Stream.Calls.{Agrees}

abbrev pub Tools : Type 0
Tools = List (ℕ × Tool)

-- If the step succeeds, the calls of a client that had `calls` before agree with the state after it.
abbrev pub Keeps : (Tools → Type 0) → List Call → Step → Type 0
Keeps P calls (err e) = Unit {0}
Keeps P calls (ok (s, es)) = Agrees s.tools (hear_all es calls) × P s.tools

pub behind-Keeps :
    (P : Tools → Type 0) (es : List Value) (calls : List Call) (m : Step)
    → Keeps P (hear_all es calls) m
    → Keeps P calls (behind es m)
behind-Keeps P es calls (err e) h = tt
behind-Keeps P es calls (ok (s, fs)) h =
    (subst (Agrees s.tools) (sym (hear_all-append es fs calls)) h.0, h.1)

pub and_then-Keeps :
    (P Q : Tools → Type 0) (calls : List Call) (m : Step) (next : State → Step)
    → Keeps P calls m
    → ((s : State) (heard : List Call) → Agrees s.tools heard → P s.tools → Keeps Q heard (next s))
    → Keeps Q calls (and_then m next)
and_then-Keeps P Q calls (err e) next h k = tt
and_then-Keeps P Q calls (ok (s, es)) next h k =
    behind-Keeps Q es calls (next s) (k s (hear_all es calls) h.0 h.1)

pub stay-Keeps :
    (P : Tools → Type 0) (calls : List Call) (s : State)
    → Agrees s.tools calls
    → P s.tools
    → Keeps P calls (ok (s, []))
unfolding hear_all
stay-Keeps P calls s a p = (a, p)

pub one-Keeps :
    (P : Tools → Type 0) (calls now : List Call) (s : State) (c : Value)
    → hear c calls ≡ now
    → Agrees s.tools now
    → P s.tools
    → Keeps P calls (ok (s, c ∷ []))
unfolding hear_all
one-Keeps P calls now s c e a p = (subst (Agrees s.tools) (sym e) a, p)

-- A delta that is sent: what a client makes of it has to agree with the state.
pub send-Keeps :
    (P : Tools → Type 0) (calls now : List Call) (bytes : ℕ) (delta : Value) (s : State)
    → hear_delta delta calls ≡ now
    → Agrees s.tools now
    → P s.tools
    → Keeps P calls (send bytes delta s)
unfolding send retain
send-Keeps P calls now bytes delta s e a p =
    let total = min (s.retained + bytes) (2 ^ 64 - 1) in
    let t : State = record s { retained = total } in
    elim (Bool-cases (leb total limit)) [
      | inl fits ↦
          rw fits
            (one-Keeps P calls now t (chunk t delta none) (hear-chunk t delta none calls ∙ e) a p)
      | inr above ↦ rw above tt
    ]

pub cond-Keeps :
    (P : Tools → Type 0) (calls : List Call) (b : Bool) (x y : Step)
    → Keeps P calls x
    → Keeps P calls y
    → Keeps P calls (if b then x else y)
cond-Keeps P calls true x y h g = h
cond-Keeps P calls false x y h g = g

pub bind-Keeps :
    {A : Type 0} (P : Tools → Type 0) (calls : List Call) (m : Fallible A) (next : A → Step)
    → ((x : A) → m ≡ ok x → Keeps P calls (next x))
    → Keeps P calls (m >>= next)
bind-Keeps P calls (ok x) next h = h x refl
bind-Keeps P calls (err e) next h = tt

pub then-Keeps :
    {A : Type 0} (P : Tools → Type 0) (calls : List Call) (m : Fallible A) (next : Step)
    → Keeps P calls next
    → Keeps P calls (m >> next)
then-Keeps P calls (ok x) next h = h
then-Keeps P calls (err e) next h = tt

some_of_or_err : {A : Type 0} (o : Option A) (e : String) (x : A) → or_err o e ≡ ok x → o ≡ some x
some_of_or_err (some a) e x h = cc
some_of_or_err none e x h = cc

-- What was sent before, with what was not, is the text.
pub join_of_unsent :
    (prior text changed delta : String)
    → unsent true prior text changed ≡ ok delta
    → join prior delta ≡ text
join_of_unsent prior text changed delta h =
    join_of_strip_prefix prior text delta (some_of_or_err (strip_prefix prior text) changed delta h)

-- A step that tells a client nothing of the calls.
abbrev IsQuiet : Value → Type 0
IsQuiet delta = (calls : List Call) → hear_delta delta calls ≡ calls

module _ (P : Tools → Type 0) (calls : List Call) (s : State) (a : Agrees s.tools calls)
    (p : P s.tools) where
  send_text-Keeps :
      (output content : ℕ) (key prior delta : String)
      → ((d : String) → IsQuiet (obj ((key, string d) ∷ [])))
      → Keeps P calls (send_text (output, content, key) prior delta s)
  send_text-Keeps output content key prior delta quiet = elim (Bool-cases (is_blank_text delta)) [
    | inl e ↦ rw e (stay-Keeps P calls s a p)
    | inr e ↦ rw e (send-Keeps P calls calls _ _ _ (quiet delta calls) a p)
  ]

  pub text-Keeps :
      (output content : ℕ) (key full_text : String) (full : Bool)
      → ((d : String) → IsQuiet (obj ((key, string d) ∷ [])))
      → Keeps P calls (text (output, content, key) full_text full s)
  unfolding text
  text-Keeps output content key full_text full quiet =
      let prior = unwrap_or (find_key same_text_key (output, content, key) s.texts) "" in
      bind-Keeps P calls (unsent full prior full_text "Response text changed after being streamed")
        (λ delta. send_text (output, content, key) prior delta s)
        λ delta e. send_text-Keeps output content key prior delta quiet

  send_summary-Keeps :
      (i : ℕ) (raw : Bool) (id : Value) (prior delta : String)
      → Keeps P calls (send_summary (i, raw) id prior delta s)
  send_summary-Keeps i raw id prior delta = elim (Bool-cases (is_blank_text delta)) [
    | inl e ↦ rw e (stay-Keeps P calls s a p)
    | inr e ↦ rw e (send-Keeps P calls calls _ _ _ refl a p)
  ]

  pub summary-Keeps :
      (i : ℕ) (raw : Bool) (id : Value) (full_text : String) (full : Bool)
      → Keeps P calls (summary (i, raw) id full_text full s)
  unfolding summary
  summary-Keeps i raw id full_text full =
      let prior = unwrap_or (find_key same_summary_key (i, raw) s.summaries) "" in
      let changed : String = "Reasoning summary changed after being streamed" in
      let step =
        unsent full prior full_text changed >>= λ delta. send_summary (i, raw) id prior delta s in
      cond-Keeps P calls s.exclude_reasoning (ok (s, [])) step (stay-Keeps P calls s a p) (
        bind-Keeps P calls (unsent full prior full_text changed)
          (λ delta. send_summary (i, raw) id prior delta s)
          λ delta h. send_summary-Keeps i raw id prior delta)
