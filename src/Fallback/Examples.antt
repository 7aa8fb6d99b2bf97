-- ===== src/Fallback/Examples.antt =====
-- Runs of src/fallback.rs at concrete inputs.
use hey_proxy.Base.{
  ℕ, suc, ◌+◌, ◌≤◌, ◌<◌, ◌≡◌, refl, ◌≢◌, ◌↔◌, inr, true, false, Option, none, some, List, [], ◌∷◌,
  Memᴰ, arith, length, concat, ok, err, All, if◌then◌else◌, ◌==◌, ◌++◌,
}
use hey_proxy.Base.Text.{codes}
use hey_proxy.Json.{Value, string, array, object, nil, cons, end, field}
use hey_proxy.Json.Access.{is_true, index}
use hey_proxy.Fallback.Rules.{
  Fallbacks, canonical, valid_name, validate, opened, out_of_fuel, max_attempts, cycle,
}
use hey_proxy.Fallback.Rules.Depth.{Chain, end_at, fall_back}
use hey_proxy.Fallback.Rules.Chains.{IsSingleRule, validate-Chain-le}
use hey_proxy.Fallback.Rules.DoublePrefix.{twice, self_loop, self_loop-accepted}
use hey_proxy.Fallback.Rules.Fuel.{validate-ne-out_of_fuel}
use hey_proxy.Fallback.Policy.{
  replay_blocker, local_tool, prelude_event, prelude_value, transient_http, waiting, committed,
  refused, is_waiting, names_conversation, policy_opened,
}
use hey_proxy.Fallback.Policy.Tools.{HasNo, ToolsLocal, replay_blocker-eq-none_iff}
use hey_proxy.Fallback.Policy.Permanent
use hey_proxy.Fallback.Policy.Safety.{FailsForGood, at_top, answer_is_kept}
use hey_proxy.Framing.{complete_lines, decide_lines}
use hey_proxy.Fallback.Scanner.{new, max_prelude, feed, feed_chunks, scanner_opened}
use hey_proxy.Fallback.Scanner.Bounds.{feed_bounded, waiting_below}
use hey_proxy.Fallback.Scanner.Refines.{feed_chunks-decide_lines}

abbrev two_rules : Fallbacks
two_rules = ("a", "b" ∷ []) ∷ ("openai/b", "c" ∷ []) ∷ []

two_rules-accepted : validate two_rules ≡ ok tt
unfolding opened
two_rules-accepted = refl

ring_refused : validate (("a", "b" ∷ []) ∷ ("b", "a" ∷ []) ∷ []) ≡ err (cycle "a")
unfolding opened
ring_refused = refl

two_rules-singles : All IsSingleRule two_rules
unfolding opened
two_rules-singles = ((refl, (refl, tt)), ((refl, (refl, tt)), tt))

two_rules-Chain : Chain two_rules "a" 3
unfolding opened
two_rules-Chain =
    fall_back "a" "b" 2 (Memᴰ.head refl) (fall_back "b" "c" 1 (Memᴰ.head refl) (end_at "c"))

single_a : canonical (canonical "a") ≡ canonical "a"
unfolding opened
single_a = refl

validate-Chain-le_example : 3 ≤ max_attempts
validate-Chain-le_example =
    validate-Chain-le two_rules "a" 3 two_rules-accepted two_rules-singles single_a two_rules-Chain

validate-ne-out_of_fuel_example : validate two_rules ≢ err out_of_fuel
validate-ne-out_of_fuel_example = validate-ne-out_of_fuel two_rules

valid_m : valid_name (twice "m") ≡ true
unfolding opened
valid_m = refl

self_loop-accepted_example :
    (validate (self_loop "m") ≡ ok tt) × ((k : ℕ) → Chain (self_loop "m") (twice "m") (suc k))
self_loop-accepted_example = self_loop-accepted "m" valid_m

abbrev hosted : Value
hosted =
    object (field "tools" (array (cons (object (field "type" (string "web_search") end)) nil)) end)

hosted_blocked : replay_blocker hosted ≡ some "hosted_tools"
unfolding replay_blocker local_tool names_conversation
hosted_blocked = refl

replay_blocker-eq-none_iff_example : (replay_blocker hosted ≡ none) ↔ (
    HasNo "previous_response_id" hosted
    × HasNo "conversation" hosted
    × (is_true (index hosted "background") ≡ false)
    × ToolsLocal (index hosted "tools"))
replay_blocker-eq-none_iff_example = replay_blocker-eq-none_iff hosted

-- A parser that knows three texts by their first byte: `q`, `o` and `c`.
abbrev quota : Value
quota = object (field "error" (object (field "code" (string "insufficient_quota") end)) end)

abbrev overloaded : Value
overloaded = object (
    field "type" (string "error")
      (field "error" (object (field "code" (string "server_is_overloaded") end)) end))

abbrev created : Value
created = object (field "type" (string "response.created") end)

abbrev parse : List ℕ → Option Value
parse [] = none
parse (b ∷ _) =
    if b == b'q'
    then some quota
    else if b == b'o'
    then some overloaded
    else if b == b'c'
    then some created
    else none

quota_is_permanent : FailsForGood quota
quota_is_permanent = at_top (object (field "code" (string "insufficient_quota") end)) refl refl (
    Permanent.named "code" "insufficient_quota" (Memᴰ.head refl) refl
      (Permanent.quota (Memᴰ.head refl)))

-- Where the response has an error of its own, the one beside it is not looked at in a stream.
beside_is_not_read :
    prelude_value false (
      some (
        object (
          field "type" (string "response.failed") (
            field "response"
              (object (field "error" (object (field "code" (string "server_error") end)) end))
              (field "error" (object (field "code" (string "insufficient_quota") end)) end)))))
    ≡ refused
unfolding policy_opened
beside_is_not_read = refl

answer_is_kept_example :
    (transient_http parse 503 (codes "q") ≡ false)
    × (prelude_event parse (codes "q") false ≡ committed)
answer_is_kept_example =
    answer_is_kept parse (codes "q") quota 503 false refl (inr quota_is_permanent)

events :
    (prelude_event parse (codes "c") false ≡ waiting)
    × (prelude_event parse (codes "o") false ≡ refused)
    × (prelude_event parse (codes "o") true ≡ committed)
    × (transient_http parse 503 (codes "o") ≡ true)
    × (transient_http parse 404 (codes "o") ≡ false)
unfolding policy_opened
events = (refl, refl, refl, refl, refl)

abbrev stream : List (List ℕ)
stream =
    (codes "event: x" ++ 13 ∷ 10 ∷ codes "data: c" ++ 10 ∷ 10 ∷ codes "dat")
    ∷ (codes "a:o" ++ 13 ∷ 10 ∷ 13 ∷ 10 ∷ codes "data: q")
    ∷ []

stream_refused : (feed_chunks parse (new false) stream).decision ≡ refused
unfolding policy_opened scanner_opened
stream_refused = refl

stream_waiting :
    (feed parse (new false) (codes "data: c" ++ 10 ∷ 10 ∷ codes "data: q")).decision ≡ waiting
unfolding policy_opened scanner_opened
stream_waiting = refl

cut_event_bounded :
    let s = feed parse (new true) (codes "data: c") in
    (length s.line + length s.acc ≤ s.total) × (s.total ≤ max_prelude)
cut_event_bounded = feed_bounded parse true (codes "data: c")

abbrev waiting_stream : List ℕ
waiting_stream = codes "data: c" ++ 10 ∷ 10 ∷ codes "data: q"

waiting_below_example :
    ((feed parse (new false) waiting_stream).total ≡ length waiting_stream)
    × (length waiting_stream < max_prelude)
waiting_below_example = waiting_below parse false waiting_stream stream_waiting

feed_chunks-decide_lines_example :
    (feed_chunks parse (new false) stream).decision
    ≡ decide_lines
        (λ acc. prelude_event parse acc false)
        is_waiting
        waiting
        []
        (complete_lines [] (concat stream))
feed_chunks-decide_lines_example = feed_chunks-decide_lines parse false stream (omega arith)
