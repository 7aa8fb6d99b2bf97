-- ===== src/Messages/Protocol.antt =====
-- The event protocol of Anthropic's streams, as a client follows it: a message starts once, blocks
-- are numbered in the order in which they start, each change goes to an open block of its kind, all
-- blocks are stopped in order, and then the reason of the stop and the end are told. A ping may come
-- at any time before the end, and an error ends the stream.
use hey_proxy.Base.{
  ℕ, suc, String, Bool, true, false, not, ◌&&◌, Option, none, some, List, [], ◌∷◌, ◌++◌, ◌≡◌, sym,
  ap, ◌∙◌, inl, inr, Option-cases, arith, ◌==◌, leb, ltb, if◌then◌else◌, str_eq, length, get_elem?,
}
use hey_proxy.Json.{Value}
use hey_proxy.Json.Access.{index, as_str, as_u64}

pub data Kind : Type 0 where
  text thinking tool_use redacted : Kind

pub data EventType : Type 0 where
  message_start block_start block_delta block_stop message_delta message_stop ping error : EventType

abbrev pub event_type : String → Option EventType
event_type name =
    if str_eq name "message_start"
    then some message_start
    else if str_eq name "content_block_start"
    then some block_start
    else if str_eq name "content_block_delta"
    then some block_delta
    else if str_eq name "content_block_stop"
    then some block_stop
    else if str_eq name "message_delta"
    then some message_delta
    else if str_eq name "message_stop"
    then some message_stop
    else if str_eq name "ping"
    then some ping
    else if str_eq name "error"
    then some error
    else none

abbrev pub block_kind : String → Option Kind
block_kind name =
    if str_eq name "text"
    then some Kind.text
    else if str_eq name "thinking"
    then some Kind.thinking
    else if str_eq name "tool_use"
    then some Kind.tool_use
    else if str_eq name "redacted_thinking"
    then some Kind.redacted
    else none

-- The kind of block that a change is for.
abbrev pub delta_kind : String → Option Kind
delta_kind name =
    if str_eq name "text_delta"
    then some Kind.text
    else if str_eq name "thinking_delta"
    then some Kind.thinking
    else if str_eq name "signature_delta"
    then some Kind.thinking
    else if str_eq name "input_json_delta"
    then some Kind.tool_use
    else none

abbrev pub typed : {A : Type 0} → (String → Option A) → Value → Option A
typed of v = elim (as_str (index v "type")) [ some name ↦ of name | none ↦ none ]

abbrev pub same_kind : Kind → Kind → Bool
same_kind Kind.text Kind.text = true
same_kind Kind.thinking Kind.thinking = true
same_kind Kind.tool_use Kind.tool_use = true
same_kind Kind.redacted Kind.redacted = true
same_kind _ _ = false

-- What a client has seen: whether the message has started, the kinds of the blocks in the order of
-- their numbers, how many of them are stopped, and whether the reason and the end were told.
pub record Client : Type 0 where
  pub begun : Bool
  pub kinds : List Kind
  pub stopped : ℕ
  pub told : Bool
  pub over : Bool

abbrev pub new_client : Client
new_client = record { begun = false; kinds = []; stopped = 0; told = false; over = false }

abbrev pub when : Bool → Client → Option Client
when test c = if test then some c else none

abbrev pub starts : Client → Option ℕ → Option Kind → Option Client
starts c (some i) (some kind) =
    when (c.begun && not c.told && c.stopped == 0 && i == length c.kinds)
      (record c { kinds = c.kinds ++ kind ∷ [] })
starts c _ _ = none

abbrev pub is_kind : Option Kind → Kind → Bool
is_kind (some k) kind = same_kind k kind
is_kind none kind = false

abbrev pub changes : Client → Option ℕ → Option Kind → Option Client
changes c (some i) (some kind) =
    when (c.begun && not c.told && leb c.stopped i && is_kind (get_elem? c.kinds i) kind) c
changes c _ _ = none

abbrev pub stops : Client → Option ℕ → Option Client
stops c (some i) =
    when (c.begun && not c.told && i == c.stopped && ltb i (length c.kinds))
      (record c { stopped = suc c.stopped })
stops c none = none

-- One event that is not the end.
abbrev pub follow_type : Option EventType → Client → Value → Option Client
follow_type (some message_start) c v = when (not c.begun) (record c { begun = true })
follow_type (some block_start) c v =
    starts c (as_u64 (index v "index")) (typed block_kind (index v "content_block"))
follow_type (some block_delta) c v =
    changes c (as_u64 (index v "index")) (typed delta_kind (index v "delta"))
follow_type (some block_stop) c v = stops c (as_u64 (index v "index"))
follow_type (some message_delta) c v =
    when (c.begun && not c.told && c.stopped == length c.kinds) (record c { told = true })
follow_type (some message_stop) c v = when c.told (record c { over = true })
follow_type (some ping) c v = some c
follow_type (some error) c v = some (record c { over = true })
follow_type none c v = none

unfoldable pub follow : Client → Value → Option Client
follow c v = if c.over then none else follow_type (typed event_type v) c v

unfoldable pub follow_all : Client → List Value → Option Client
follow_all c [] = some c
follow_all c (e ∷ es) = elim (follow c e) [ some d ↦ follow_all d es | none ↦ none ]

pub follow_all-append :
    (c d : Client) (es fs : List Value)
    → follow_all c es ≡ some d
    → follow_all c (es ++ fs) ≡ follow_all d fs
unfolding follow_all
follow_all-append c d [] fs h = ground (arith, h)
follow_all-append c d (e ∷ es) fs h = elim (Option-cases (follow c e)) [
  | inl refused ↦ absurd (ground (arith, refused, h))
  | inr (b, taken) ↦
      let rest : follow_all b es ≡ some d =
        sym (ap (λ o. elim o [ some b ↦ follow_all b es | none ↦ none ]) taken) ∙ h in
      ap (λ o. elim o [ some b ↦ follow_all b (es ++ fs) | none ↦ none ]) taken
      ∙ follow_all-append b d es fs rest
]

-- A client can follow the events of a whole stream up to an end.
pub record IsComplete (c : Client) (events : List Value) : Type 0 where
  pub final : Client
  pub followed : follow_all c events ≡ some final
  pub ended : final.over ≡ true
