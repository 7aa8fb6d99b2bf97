-- ===== src/Partial/Parts.antt =====
-- src/gemini/partial.rs, `part`: no slot is ever missing, and nothing is held back without an active call.
use mathlib.Core.Path.{subst}
use hey_proxy.Base.{
  ℕ, ◌≡◌, refl, sym, ◌≢◌, Bool, true, false, not, ◌&&◌, Option, none, some, List, [], ◌∷◌, ◌++◌,
  if◌then◌else◌, arith, Result, ok, err, ◌>>=◌,
}
use hey_proxy.Json.{Value}
use hey_proxy.Json.Access.{get, index, is_true, is_some_and}
use hey_proxy.Capacity.{is_some}
use hey_proxy.Partial.{
  PartialCalls, default, PartialError, missing_slot, Parted, drained, push_part, opened_call, nth,
  set_at, remove_at, parts, Progress, closed, settle, apply_args, start_call, find_index, position,
  unknown_id, conflicting_signatures, duplicate_id, mixed_args, call_object, is_active, set_field,
  signed, arguments, at_target, partial_part, of_call, part, is_partial, is_terminal,
}
use hey_proxy.Partial.Slots.{
  Aligned, empty, add_plain, add_call, change_call, fill-Aligned, drain-Aligned, drain-eq-nil,
}
use hey_proxy.Partial.Refusals.{
  Benign, Found, found-Found, unless-Found, apply_args-Found, arguments-Found,
}

-- The calls of a state have their slots, and what is not waiting for one has left the queue.
pub record IsSound (s : PartialCalls) : Type 0 where
  pub aligned : Aligned s.serial 0 s.queue s.active
  pub released : s.active ≡ [] → s.queue ≡ []

abbrev Sound : Parted → Type 0
Sound (ok (t, parts)) = IsSound t
Sound (err e) = Benign e

Sound-bind :
    {A : Type 0} (m : Result PartialError A) (f : A → Parted)
    → Found m
    → ((a : A) → m ≡ ok a → Sound (f a))
    → Sound (m >>= f)
Sound-bind (ok a) f h k = k a refl
Sound-bind (err e) f h k = h

drained-IsSound : (s : PartialCalls) → Aligned s.serial 0 s.queue s.active → Sound (ok (drained s))
drained-IsSound s a = record {
  aligned = drain-Aligned a;
  released = λ h. drain-eq-nil (subst (Aligned s.serial 0 s.queue) h a);
}

settle-Sound :
    (s : PartialCalls) (i k : ℕ) (old : Value) (p : Progress)
    → Aligned s.serial 0 s.queue s.active
    → nth s.active i ≡ some (k, old)
    → Sound (settle s i k p)
settle-Sound s i k old (target, (slots, true)) a e =
    drained-IsSound (record s { active = set_at s.active i (k, target); allocated_slots = slots })
      (change_call i k old target e a)
settle-Sound s i k old (target, (slots, false)) a e =
    let (q, (is, b)) = fill-Aligned i k old target e a in
    let t : PartialCalls = record s { active = remove_at s.active i; allocated_slots = slots } in
    subst (λ o. Sound (closed t o)) (sym is) (drained-IsSound (record t { queue = q }) b)

-- A state in which the calls have their slots, or an error.
abbrev Started : Result PartialError PartialCalls → Type 0
Started (ok t) = Aligned t.serial 0 t.queue t.active
Started (err e) = Benign e

Started-bind :
    (m : Result PartialError PartialCalls) (f : PartialCalls → Parted)
    → Started m
    → ((t : PartialCalls) → Aligned t.serial 0 t.queue t.active → Sound (f t))
    → Sound (m >>= f)
Started-bind (ok t) f h k = k t h
Started-bind (err e) f h k = h

unless-Started :
    (e : PartialError) (t : PartialCalls) (b : Bool)
    → Benign e
    → Aligned t.serial 0 t.queue t.active
    → Started (if b then err e else ok t)
unless-Started e t true h k = h
unless-Started e t false h k = k

choose-Sound : (x y : Parted) (b : Bool) → Sound x → Sound y → Sound (if b then x else y)
choose-Sound x y true h k = h
choose-Sound x y false h k = k

unless-Sound :
    (e : PartialError) (y : Parted) (b : Bool) → Benign e → Sound y → Sound (if b then err e else y)
unless-Sound e y true h k = h
unless-Sound e y false h k = k

module _ (same : Value → Value → Bool) where
  signed-Found : (o : Option Value) (target : Value) → Found (signed same o target)
  signed-Found none target = tt
  signed-Found (some signature) target =
      unless-Found conflicting_signatures (set_field "thoughtSignature" signature target)
        (is_some_and (λ s. not (same s signature)) (get target "thoughtSignature")) tt

  find_index-Found :
      (o : Option Value) (active : List (ℕ × Value)) → Found (find_index same o active)
  find_index-Found (some id) active = found-Found unknown_id (position same id active) tt
  find_index-Found none [] = tt
  find_index-Found none (x ∷ xs) = tt

  at_target-Sound :
      (s : PartialCalls) (i : ℕ) (value call : Value) (o : Option (ℕ × Value))
      → Aligned s.serial 0 s.queue s.active
      → nth s.active i ≡ o
      → Sound (at_target same s i value call o)
  at_target-Sound s i value call none a e = tt
  at_target-Sound s i value call (some (k, old)) a e =
      Sound-bind (signed same (get value "thoughtSignature") old) _
        (signed-Found (get value "thoughtSignature") old)
        λ target _.
          Sound-bind (arguments (get call "partialArgs")) _
            (arguments-Found (get call "partialArgs"))
            λ args _.
              Sound-bind
                (apply_args args (target, (s.allocated_slots, is_true (index call "willContinue"))))
                (settle s i k)
                (apply_args-Found args
                  (target, (s.allocated_slots, is_true (index call "willContinue"))))
                λ p _. settle-Sound s i k old p a e

  start_call-Started :
      (value call : Value) (o : Option Value) (s : PartialCalls)
      → Aligned s.serial 0 s.queue s.active
      → Started (start_call same value call o s)
  start_call-Started value call none s a = a
  start_call-Started value call (some name) s a =
      let start = set_field "functionCall" (call_object name (get call "id")) value in
      unless-Started duplicate_id (opened_call s start) (is_active same (get call "id") s.active) tt
        (add_call start (omega arith) a)

  partial_part-Sound :
      (value call : Value) (s : PartialCalls)
      → Aligned s.serial 0 s.queue s.active
      → Sound (partial_part same value call s)
  partial_part-Sound value call s a =
      let begun : PartialCalls = record s { trace = s.trace ++ value ∷ [] } in
      let targeting : PartialCalls → ℕ → Parted =
        λ t i. at_target same t i value call (nth t.active i) in
      let finding : PartialCalls → Parted =
        λ t. find_index same (get call "id") t.active >>= targeting t in
      unless-Sound mixed_args (start_call same value call (get call "name") begun >>= finding)
        (is_some (get call "args")) tt
        (Started-bind (start_call same value call (get call "name") begun) finding
          (start_call-Started value call (get call "name") begun a)
          λ t b.
            Sound-bind (find_index same (get call "id") t.active) (targeting t)
              (find_index-Found (get call "id") t.active)
              λ i _. at_target-Sound t i value call (nth t.active i) b refl)

  of_call-Sound :
      (s : PartialCalls) (value : Value) (o : Option Value)
      → Aligned s.serial 0 s.queue s.active
      → Sound (of_call same s value o)
  of_call-Sound s value none a = drained-IsSound (push_part s value) (add_plain value a)
  of_call-Sound s value (some call) a =
      choose-Sound (ok (drained (push_part s value))) (partial_part same value call s)
        (not (is_partial call) && not (is_terminal call))
        (drained-IsSound (push_part s value) (add_plain value a))
        (partial_part-Sound value call s a)

  part-Sound : (s : PartialCalls) (value : Value) → IsSound s → Sound (part same s value)
  unfolding part
  part-Sound s value k = of_call-Sound s value (get value "functionCall") k.aligned

Sound-then :
    (m : Parted) (f : PartialCalls × List Value → Parted)
    → Sound m
    → ((t : PartialCalls) (out : List Value) → IsSound t → Sound (f (t, out)))
    → Sound (m >>= f)
Sound-then (ok (t, out)) f h k = k t out h
Sound-then (err e) f h k = h

default-IsSound : IsSound default
default-IsSound = record { aligned = empty; released = λ h. refl }

module _ (same : Value → Value → Bool) where
  then-Sound :
      (n : Parted) (before : List Value) → Sound n → Sound (n >>= λ q. ok (q.0, before ++ q.1))
  then-Sound (ok q) before h = h
  then-Sound (err e) before h = h

  parts-Sound : (values : List Value) (s : PartialCalls) → IsSound s → Sound (parts same s values)
  unfolding parts
  parts-Sound [] s k = k
  parts-Sound (value ∷ values) s k =
      Sound-then (part same s value) (λ r. parts same r.0 values >>= λ q. ok (q.0, r.1 ++ q.1))
        (part-Sound same s value k)
        (λ t out h. then-Sound (parts same t values) out (parts-Sound values t h))

  -- Whatever parts a stream consists of, the slot of a completed call is found.
  pub parts-ne-missing_slot : (values : List Value) → parts same default values ≢ err missing_slot
  parts-ne-missing_slot values e = subst Sound e (parts-Sound values default default-IsSound)
