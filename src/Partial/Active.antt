-- ===== src/Partial/Active.antt =====
-- src/gemini/partial.rs, `PartialCalls`: what the list of active calls allocates, when it changes.
use mathlib.Core.Option.{some-injective}
use hey_proxy.Base.{ℕ, zero, suc, ◌+◌, ◌≡◌, ap, Option, some, List, [], ◌∷◌, ◌++◌, arith}
use hey_proxy.Json.{Value}
use hey_proxy.Partial.{nth, set_at, remove_at}
use hey_proxy.Partial.Growth.{args_slots, active_slots}

pub active_slots-append :
    (calls : List (ℕ × Value)) (serial : ℕ) (call : Value)
    → active_slots (calls ++ (serial, call) ∷ []) ≡ active_slots calls + args_slots call
active_slots-append [] serial call = omega arith
active_slots-append ((k, c) ∷ calls) serial call =
    omega (arith, active_slots-append calls serial call)

old_call :
    (k serial : ℕ) (c old : Value)
    → ◌≡◌ {A = Option (ℕ × Value)} (some (k, c)) (some (serial, old))
    → args_slots c ≡ args_slots old
old_call k serial c old e =
    ap (λ (p : ℕ × Value). args_slots p.1) (some-injective {A = ℕ × Value} (k, c) (serial, old) e)

pub active_slots-set_at :
    (calls : List (ℕ × Value)) (i serial : ℕ) (old new : Value)
    → nth calls i ≡ some (serial, old)
    → active_slots (set_at calls i (serial, new)) + args_slots old
      ≡ active_slots calls + args_slots new
active_slots-set_at [] i serial old new e = cc
active_slots-set_at ((k, c) ∷ calls) zero serial old new e =
    omega (arith, old_call k serial c old e)
active_slots-set_at ((k, c) ∷ calls) (suc i) serial old new e =
    omega (arith, active_slots-set_at calls i serial old new e)

pub active_slots-remove_at :
    (calls : List (ℕ × Value)) (i serial : ℕ) (old : Value)
    → nth calls i ≡ some (serial, old)
    → active_slots (remove_at calls i) + args_slots old ≡ active_slots calls
active_slots-remove_at [] i serial old e = cc
active_slots-remove_at ((k, c) ∷ calls) zero serial old e = omega (arith, old_call k serial c old e)
active_slots-remove_at ((k, c) ∷ calls) (suc i) serial old e =
    omega (arith, active_slots-remove_at calls i serial old e)
