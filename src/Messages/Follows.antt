-- ===== src/Messages/Follows.antt =====
-- The events of a stream, one by one, as the client of Protocol follows them.
use mathlib.Core.Path.{subst}
use hey_proxy.Messages.Response.{error_value, Fallible}
use hey_proxy.Messages.Steps.{StepOf, behind, and_then}
use hey_proxy.Messages.Relay.{failure, ended}
use hey_proxy.Base.{
  ℕ, zero, suc, ◌+◌, ◌<◌, String, refl, ap, ◌∙◌, none, List, true, ok, err, ◌>>=◌, ◌>>◌, false,
  some, [], ◌∷◌, ◌++◌, ◌≡◌, arith, length, get_elem?, get_elem?-append_length,
}
use hey_proxy.Json.{Value}
use hey_proxy.Messages.Protocol.{
  Kind, Client, follow_all, follow_all-append, IsComplete, typed, delta_kind, block_kind, follow,
  same_kind,
}
use hey_proxy.Messages.Events.{block_stop, block_stops, closing, block_start, block_delta}

-- A client that may be sent changes: the message has started and no block is stopped.
pub record IsOpen (c : Client) : Type 0 where
  pub begun : c.begun ≡ true
  pub none_stopped : c.stopped ≡ 0
  pub untold : c.told ≡ false
  pub running : c.over ≡ false

-- The client after one more block.
abbrev pub with_kind : Client → Kind → Client
with_kind c k = record c { kinds = c.kinds ++ k ∷ [] }

pub with_kind-IsOpen : (c : Client) (k : Kind) → IsOpen c → IsOpen (with_kind c k)
with_kind-IsOpen c k o = record {
  begun = o.begun;
  none_stopped = o.none_stopped;
  untold = o.untold;
  running = o.running;
}

same_kind_refl : (k : Kind) → same_kind k k ≡ true
same_kind_refl Kind.text = cc
same_kind_refl Kind.thinking = cc
same_kind_refl Kind.tool_use = cc
same_kind_refl Kind.redacted = cc

module _ (c : Client) (i : ℕ) (o : IsOpen c) where
  pub follow-block_delta :
      (delta : Value) (k : Kind)
      → get_elem? c.kinds i ≡ some k
      → typed delta_kind delta ≡ some k
      → follow c (block_delta i delta) ≡ some c
  unfolding follow
  follow-block_delta delta k at_i of_k = ground (arith, at_i, of_k, same_kind_refl k)

  pub follow-block_start :
      (b : Value) (k : Kind)
      → i ≡ length c.kinds
      → typed block_kind b ≡ some k
      → follow c (block_start i b) ≡ some (record c { kinds = c.kinds ++ k ∷ [] })
  unfolding follow
  follow-block_start b k next of_k = ground (arith, of_k)

pub followed_one : (c d : Client) (e : Value) → follow c e ≡ some d → follow_all c (e ∷ []) ≡ some d
unfolding follow_all
followed_one c d e h = ap (λ o. elim o [ some b ↦ follow_all b [] | none ↦ none ]) h

pub followed_two :
    (b c d : Client) (e f : Value)
    → follow b e ≡ some c
    → follow c f ≡ some d
    → follow_all b (e ∷ f ∷ []) ≡ some d
unfolding follow_all
followed_two b c d e f first second =
    ap (λ o. elim o [ some a ↦ follow_all a (f ∷ []) | none ↦ none ]) first
    ∙ followed_one c d f second

module _ (c : Client) where
  -- An error may come at any time before the end.
  pub failure-IsComplete : (message : String) → c.over ≡ false → IsComplete c (failure message ∷ [])
  unfolding follow_all follow error_value
  failure-IsComplete message running = record {
    final = record c { over = true };
    followed = rw running refl;
    ended = refl;
  }

follow-block_stop :
    (c : Client)
    → c.begun ≡ true
    → c.told ≡ false
    → c.over ≡ false
    → c.stopped < length c.kinds
    → follow c (block_stop c.stopped) ≡ some (record c { stopped = suc c.stopped })
unfolding follow
follow-block_stop c begun untold running more = ground arith

plus_zero : (a : ℕ) → a ≡ a + 0
plus_zero a = omega arith

plus_suc : (a b : ℕ) → suc a + b ≡ a + suc b
plus_suc a b = omega arith

pub zero_plus : (a : ℕ) → 0 + a ≡ a
zero_plus a = omega arith

pub follow_all-block_stops :
    (n : ℕ) (c : Client)
    → c.begun ≡ true
    → c.told ≡ false
    → c.over ≡ false
    → c.stopped + n ≡ length c.kinds
    → follow_all c (block_stops c.stopped n) ≡ some (record c { stopped = c.stopped + n })
unfolding follow_all block_stops
follow_all-block_stops zero c begun untold running all_ =
    ap (λ k. some (record c { stopped = k })) (plus_zero c.stopped)
follow_all-block_stops (suc n) c begun untold running all_ =
    let d = record c { stopped = suc c.stopped } in
    ap (λ o. elim o [ some b ↦ follow_all b (block_stops (suc c.stopped) n) | none ↦ none ])
      (follow-block_stop c begun untold running (omega arith))
    ∙ (follow_all-block_stops n d begun untold running (omega arith)
        ∙ ap (λ k. some (record c { stopped = k })) (plus_suc c.stopped n))

pub closing-IsComplete :
    (c : Client) (reason : String) (used : Value)
    → c.begun ≡ true
    → c.told ≡ false
    → c.over ≡ false
    → c.stopped ≡ length c.kinds
    → IsComplete c (closing reason used)
unfolding follow_all follow
closing-IsComplete c reason used begun untold running all_ = record {
  final = record c { told = true; over = true };
  followed = ground arith;
  ended = refl;
}

pub append-IsComplete :
    (c d : Client) (es fs : List Value)
    → follow_all c es ≡ some d
    → IsComplete d fs
    → IsComplete c (es ++ fs)
append-IsComplete c d es fs h r = record {
  final = r.final;
  followed = follow_all-append c d es fs h ∙ r.followed;
  ended = r.ended;
}

-- The client can follow the events of a step, and is then ready for the new state.
abbrev pub IsAccepted : {S : Type 0} → (S → Client → Type 0) → Client → StepOf S → Type 0
IsAccepted IsReady c (err e) = Unit {0}
IsAccepted IsReady c (ok (s, es)) = (d : Client) × (follow_all c es ≡ some d) × IsReady s d

behind-IsAccepted :
    {T : Type 0} (IsReady : T → Client → Type 0) (c d : Client) (es : List Value) (m : StepOf T)
    → follow_all c es ≡ some d
    → IsAccepted IsReady d m
    → IsAccepted IsReady c (behind es m)
behind-IsAccepted IsReady c d es (err e) h f = tt
behind-IsAccepted IsReady c d es (ok (s, fs)) h f = (f.0, follow_all-append c d es fs h ∙ f.1, f.2)

module _ {S T : Type 0} (IsReady : S → Client → Type 0) (IsReadyNext : T → Client → Type 0) where
  pub and_then-IsAccepted :
      (c : Client) (m : StepOf S) (k : S → StepOf T)
      → IsAccepted IsReady c m
      → ((d : Client) (s : S) → IsReady s d → IsAccepted IsReadyNext d (k s))
      → IsAccepted IsReadyNext c (and_then m k)
  and_then-IsAccepted c (err e) k f g = tt
  and_then-IsAccepted c (ok (s, es)) k f g =
      behind-IsAccepted IsReadyNext c f.0 es (k s) f.1 (g f.0 s f.2)

module _ {S : Type 0} (IsReady : S → Client → Type 0) where
  -- A check, or a fallible computation, before a step.
  pub bind-IsAccepted :
      {A : Type 0} (c : Client) (m : Fallible A) (k : A → StepOf S)
      → ((a : A) → IsAccepted IsReady c (k a))
      → IsAccepted IsReady c (m >>= k)
  bind-IsAccepted c (ok a) k h = h a
  bind-IsAccepted c (err e) k h = tt

  pub then-IsAccepted :
      (c : Client) (m : Fallible (Unit {0})) (k : StepOf S)
      → IsAccepted IsReady c k
      → IsAccepted IsReady c (m >> k)
  then-IsAccepted c m k h = bind-IsAccepted c m (λ _. k) (λ _. h)

-- All blocks are stopped, then the reason and the end are told.
pub stops-IsComplete :
    (c : Client) (n : ℕ) (reason : String) (used : Value)
    → IsOpen c
    → n ≡ length c.kinds
    → IsComplete c (block_stops 0 n ++ closing reason used)
stops-IsComplete c n reason used o counted =
    let stops : follow_all c (block_stops 0 n) ≡ some (record c { stopped = n }) =
      subst (λ k. follow_all c (block_stops k n) ≡ some (record c { stopped = k + n }))
        o.none_stopped
        (follow_all-block_stops n c o.begun o.untold o.running
          (omega (arith, counted, o.none_stopped)))
      ∙ ap (λ k. some (record c { stopped = k })) (zero_plus n) in
    let d = record c { stopped = n } in
    append-IsComplete c d (block_stops 0 n) (closing reason used) stops
      (closing-IsComplete d reason used o.begun o.untold o.running counted)

-- The result of a step that ends a stream: an error is told, else the events complete it.
abbrev pub Closes : {S : Type 0} → Client → Fallible (S × List Value) → Type 0
Closes c m = IsComplete c (ended m)

pub bind-Closes :
    {A S : Type 0} (c : Client) (m : Fallible A) (k : A → Fallible (S × List Value))
    → c.over ≡ false
    → ((a : A) → Closes c (k a))
    → Closes c (m >>= k)
bind-Closes c (ok a) k running h = h a
bind-Closes c (err e) k running h = failure-IsComplete c e running

module _ (c : Client) (o : IsOpen c) where
  -- A change of an open block.
  pub delta-followed :
      (i : ℕ) (delta : Value) (k : Kind)
      → get_elem? c.kinds i ≡ some k
      → typed delta_kind delta ≡ some k
      → follow_all c (block_delta i delta ∷ []) ≡ some c
  delta-followed i delta k at_i of_k =
      followed_one c c (block_delta i delta) (follow-block_delta c i o delta k at_i of_k)

  -- A new block and a change of it.
  pub opened-followed :
      (i : ℕ) (b delta : Value) (k : Kind)
      → i ≡ length c.kinds
      → typed block_kind b ≡ some k
      → typed delta_kind delta ≡ some k
      → follow_all c (block_start i b ∷ block_delta i delta ∷ []) ≡ some (with_kind c k)
  opened-followed i b delta k counted of_b of_k =
      followed_two c (with_kind c k) (with_kind c k) (block_start i b) (block_delta i delta)
        (follow-block_start c i o b k counted of_b)
        (follow-block_delta (with_kind c k) i (with_kind-IsOpen c k o) delta k
          (rw counted (get_elem?-append_length c.kinds k)) of_k)
