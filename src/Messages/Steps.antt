-- ===== src/Messages/Steps.antt =====
-- A step of a converter: the new state and the events that it pushes, or the error.
use hey_proxy.Base.{List, ◌++◌, ok, err}
use hey_proxy.Json.{Value}
use hey_proxy.Messages.Response.{Fallible}

abbrev pub StepOf : Type 0 → Type 0
StepOf S = Fallible (S × List Value)

-- Pushes the events of two parts in order.
abbrev pub behind : {T : Type 0} → List Value → StepOf T → StepOf T
behind es (ok (s, fs)) = ok (s, es ++ fs)
behind es (err e) = err e

abbrev pub and_then : {S T : Type 0} → StepOf S → (S → StepOf T) → StepOf T
and_then (ok (s, es)) k = behind es (k s)
and_then (err e) k = err e
