-- ===== src/Partial/Limits.antt =====
-- src/gemini/partial.rs, `PartialCalls`: the limit on what the calls of a stream allocate together.
use mathlib.Core.Path.{subst}
use hey_proxy.Base.{
  ℕ, suc, ◌≤◌, ◌≡◌, refl, ap, ◌∙◌, Bool, true, false, not, ◌&&◌, Option, none, some, List, [], ◌∷◌,
  ◌++◌, arith, ok, err, ◌>>=◌,
}
use hey_proxy.Json.{Value, object}
use hey_proxy.Json.Access.{get, index, is_true, is_some_and, or_null}
use hey_proxy.Json.Update.{find-put, find-put_other}
use hey_proxy.Capacity.{is_some}
use hey_proxy.Partial.{
  PartialCalls, default, Parted, drained, push_part, opened_call, nth, set_at, remove_at, parts,
  Progress, closed, settle, apply_args, start_call, find_index, duplicate_id, mixed_args,
  call_object, is_active, set_field, signed, arguments, at_target, partial_part, of_call, part,
  is_partial, is_terminal, fill, conflicting_signatures, Slot,
}
use hey_proxy.Partial.Path.{max_slots}
use hey_proxy.Partial.Counts.{slots_of}
use hey_proxy.Partial.Active.{active_slots-append, active_slots-set_at, active_slots-remove_at}
use hey_proxy.Partial.Growth.{
  args_slots, active_slots, Holds, Holds-bind, choose-Holds, IsGrown, apply_args-IsGrown,
}

-- The arrays of the active calls have no more elements than were counted, and those keep to the limit.
pub record IsLimited (s : PartialCalls) : Type 0 where
  pub counted : active_slots s.active ≤ s.allocated_slots
  pub limited : s.allocated_slots ≤ max_slots

unfoldable Limited : PartialCalls × List Value → Type 0
Limited r = IsLimited r.0

drained-IsLimited : (s : PartialCalls) → IsLimited s → IsLimited ((drained s).0)
drained-IsLimited s k = record { counted = k.counted; limited = k.limited }

closed-Limited :
    (s : PartialCalls) (o : Option (List Slot)) → IsLimited s → Holds Limited (closed s o)
unfolding Limited
closed-Limited s (some queue) k =
    drained-IsLimited (record s { queue = queue })
      (record { counted = k.counted; limited = k.limited })
closed-Limited s none k = tt

settle-Limited :
    (s : PartialCalls) (i serial : ℕ) (old target : Value) (p : Progress)
    → IsLimited s
    → nth s.active i ≡ some (serial, old)
    → args_slots target ≡ args_slots old
    → IsGrown target s.allocated_slots p
    → Holds Limited (settle s i serial p)
unfolding Limited
settle-Limited s i serial old target (new, (slots, true)) k e same grown =
    drained-IsLimited
      (record s { active = set_at s.active i (serial, new); allocated_slots = slots })
      (record {
        counted = omega (
          arith,
          k.counted,
          grown.counted,
          same,
          active_slots-set_at s.active i serial old new e,
        );
        limited = grown.limited k.limited;
      })
settle-Limited s i serial old target (new, (slots, false)) k e same grown =
    closed-Limited (record s { active = remove_at s.active i; allocated_slots = slots })
      (fill serial new s.queue)
      (record {
        counted =
            omega (
              arith,
              k.counted,
              grown.counted,
              same,
              active_slots-remove_at s.active i serial old e,
            );
        limited = grown.limited k.limited;
      })

-- A field beside the call.
args_slots-set_field :
    (v target : Value) → args_slots (set_field "thoughtSignature" v target) ≡ args_slots target
args_slots-set_field v (object fs) =
    ap (λ o. slots_of (index (or_null o) "args"))
      (find-put_other "thoughtSignature" v "functionCall" fs refl)
args_slots-set_field v _ = refl

-- A call starts with no arguments.
call_object-empty :
    (name : Value) (id : Option Value) → slots_of (index (call_object name id) "args") ≡ 0
call_object-empty name none = refl
call_object-empty name (some id) = refl

started-empty :
    (name value : Value) (id : Option Value)
    → args_slots (set_field "functionCall" (call_object name id) value) ≡ 0
started-empty name (object fs) id =
    ap (λ o. slots_of (index (or_null o) "args")) (find-put "functionCall" (call_object name id) fs)
    ∙ call_object-empty name id
started-empty name _ id = refl

module _ (same : Value → Value → Bool) where
  signed-slots :
      (o : Option Value) (target : Value)
      → Holds (λ t. args_slots t ≡ args_slots target) (signed same o target)
  signed-slots none target = refl
  signed-slots (some signature) target =
      choose-Holds (λ t. args_slots t ≡ args_slots target) (err conflicting_signatures)
        (ok (set_field "thoughtSignature" signature target))
        (is_some_and (λ s. not (same s signature)) (get target "thoughtSignature")) tt
        (args_slots-set_field signature target)

  at_target-Limited :
      (s : PartialCalls) (i : ℕ) (value call : Value) (o : Option (ℕ × Value))
      → IsLimited s
      → nth s.active i ≡ o
      → Holds Limited (at_target same s i value call o)
  at_target-Limited s i value call none k e = tt
  at_target-Limited s i value call (some (serial, old)) k e =
      Holds-bind Limited (signed same (get value "thoughtSignature") old) _ λ target t.
        Holds-bind Limited (arguments (get call "partialArgs")) _ λ args _.
          let more = is_true (index call "willContinue") in
          Holds-bind Limited (apply_args args (target, (s.allocated_slots, more)))
            (settle s i serial)
            λ p q.
              settle-Limited s i serial old target p k e
                (subst (Holds (λ u. args_slots u ≡ args_slots old)) t
                  (signed-slots (get value "thoughtSignature") old))
                (subst (Holds (IsGrown target s.allocated_slots)) q
                  (apply_args-IsGrown args target s.allocated_slots more))

  start_call-Limited :
      (value call : Value) (o : Option Value) (s : PartialCalls)
      → IsLimited s
      → Holds IsLimited (start_call same value call o s)
  start_call-Limited value call none s k = k
  start_call-Limited value call (some name) s k =
      let start = set_field "functionCall" (call_object name (get call "id")) value in
      choose-Holds IsLimited (err duplicate_id) (ok (opened_call s start))
        (is_active same (get call "id") s.active) tt
        (record {
          counted = omega (
            arith,
            k.counted,
            active_slots-append s.active (suc s.serial) start,
            started-empty name value (get call "id"),
          );
          limited = k.limited;
        })

  partial_part-Limited :
      (value call : Value) (s : PartialCalls)
      → IsLimited s
      → Holds Limited (partial_part same value call s)
  partial_part-Limited value call s k =
      let begun : PartialCalls = record s { trace = s.trace ++ value ∷ [] } in
      let targeting : PartialCalls → ℕ → Parted =
        λ t i. at_target same t i value call (nth t.active i) in
      let finding : PartialCalls → Parted =
        λ t. find_index same (get call "id") t.active >>= targeting t in
      choose-Holds Limited (err mixed_args)
        (start_call same value call (get call "name") begun >>= finding) (is_some (get call "args"))
        tt
        (Holds-bind Limited (start_call same value call (get call "name") begun) finding λ t e.
          Holds-bind Limited (find_index same (get call "id") t.active) (targeting t) λ i _.
            at_target-Limited t i value call (nth t.active i)
              (subst (Holds IsLimited) e (
                start_call-Limited value call (get call "name") begun
                  (record { counted = k.counted; limited = k.limited })))
              refl)

  plain_part-Limited :
      (s : PartialCalls) (value : Value) → IsLimited s → IsLimited ((drained (push_part s value)).0)
  plain_part-Limited s value k = record { counted = k.counted; limited = k.limited }

  of_call-Limited :
      (s : PartialCalls) (value : Value) (o : Option Value)
      → IsLimited s
      → Holds Limited (of_call same s value o)
  unfolding Limited
  of_call-Limited s value none k = plain_part-Limited s value k
  of_call-Limited s value (some call) k =
      choose-Holds Limited (ok (drained (push_part s value))) (partial_part same value call s)
        (not (is_partial call) && not (is_terminal call)) (plain_part-Limited s value k)
        (partial_part-Limited value call s k)

  parts-Limited :
      (values : List Value) (s : PartialCalls) → IsLimited s → Holds Limited (parts same s values)
  unfolding parts part Limited
  parts-Limited [] s k = k
  parts-Limited (value ∷ values) s k =
      Holds-bind Limited (part same s value)
        (λ r. parts same r.0 values >>= λ q. ok (q.0, r.1 ++ q.1))
        λ r e.
          Holds-bind Limited (parts same r.0 values) (λ q. ok (q.0, r.1 ++ q.1))
            λ q f. subst (Holds Limited) f (
              parts-Limited values r.0
                (subst (Holds Limited) e (of_call-Limited s value (get value "functionCall") k)))

  -- Whatever parts a stream consists of, the arrays in the arguments of the calls that are active have together
  -- no more elements than were counted as allocated, and at most 262144 were.
  pub parts_bounded :
      (values : List Value) (t : PartialCalls) (out : List Value)
      → parts same default values ≡ ok (t, out)
      → (active_slots t.active ≤ t.allocated_slots) × (t.allocated_slots ≤ max_slots)
  unfolding Limited
  parts_bounded values t out e =
      let fresh : IsLimited default = record { counted = omega arith; limited = omega arith } in
      let k : IsLimited t = subst (Holds Limited) e (parts-Limited values default fresh) in
      (k.counted, k.limited)
