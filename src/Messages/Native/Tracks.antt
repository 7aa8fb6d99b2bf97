-- ===== src/Messages/Native/Tracks.antt =====
-- The invariant of the native converter: the client has seen the blocks of the message, by their
-- kinds, and the block that is written to is of its kind.
use hey_proxy.Base.{
  ℕ, zero, suc, String, Bool, true, false, Option, none, some, List, [], ◌∷◌, ◌++◌, ◌≡◌, refl, ap,
  ◌∙◌, if◌then◌else◌, str_eq, length, get_elem?, get_elem?-append, get_elem?-append_length,
  Bool-cases, inl, inr,
}
use hey_proxy.Json.{Value, null, bool, number, string, array, object}
use hey_proxy.Json.Update.{find-put_other}
use hey_proxy.Json.Access.{index, or_null, as_str}
use hey_proxy.Json.Build.{set_field}
use hey_proxy.Messages.Protocol.{Kind, Client, new_client, typed, block_kind}
use hey_proxy.Messages.Follows.{IsAccepted, IsOpen, with_kind, with_kind-IsOpen}
use hey_proxy.Messages.Native.{NativeStream, Step}
use hey_proxy.Messages.Native.Feed.{change_elem, append_text, field_of}
use hey_proxy.Messages.Native.End.{is_thinking, signed}

-- The kinds of blocks.
abbrev pub AreOf : List Value → List Kind → Type 0
AreOf [] [] = Unit {0}
AreOf (b ∷ bs) (k ∷ ks) = (typed block_kind b ≡ some k) × AreOf bs ks
AreOf [] (k ∷ ks) = ⊥
AreOf (b ∷ bs) [] = ⊥

pub AreOf-length : (bs : List Value) (ks : List Kind) → AreOf bs ks → length bs ≡ length ks
AreOf-length [] [] h = refl
AreOf-length (b ∷ bs) (k ∷ ks) h = ap suc (AreOf-length bs ks h.1)
AreOf-length [] (k ∷ ks) h = absurd h
AreOf-length (b ∷ bs) [] h = absurd h

pub AreOf-append :
    (bs : List Value) (ks : List Kind) (b : Value) (k : Kind)
    → AreOf bs ks
    → typed block_kind b ≡ some k
    → AreOf (bs ++ b ∷ []) (ks ++ k ∷ [])
AreOf-append [] [] b k h of_k = (of_k, tt)
AreOf-append (x ∷ bs) (l ∷ ks) b k h of_k = (h.0, AreOf-append bs ks b k h.1 of_k)
AreOf-append [] (l ∷ ks) b k h of_k = absurd h
AreOf-append (x ∷ bs) [] b k h of_k = absurd h

-- A change that keeps the kind of a block.
pub AreOf-change_elem :
    (f : Value → Value)
    → ((b : Value) → typed block_kind (f b) ≡ typed block_kind b)
    → (i : ℕ) (bs : List Value) (ks : List Kind) → AreOf bs ks
    → AreOf (change_elem i f bs) ks
AreOf-change_elem f keeps zero [] ks h = h
AreOf-change_elem f keeps (suc i) [] ks h = h
AreOf-change_elem f keeps zero (b ∷ bs) (k ∷ ks) h = (keeps b ∙ h.0, h.1)
AreOf-change_elem f keeps (suc i) (b ∷ bs) (k ∷ ks) h = (h.0, AreOf-change_elem f keeps i bs ks h.1)
AreOf-change_elem f keeps zero (b ∷ bs) [] h = absurd h
AreOf-change_elem f keeps (suc i) (b ∷ bs) [] h = absurd h

-- A write to another field keeps a field.
index-set_field :
    (key other : String) (v b : Value)
    → str_eq key other ≡ false
    → index (set_field key v b) other ≡ index b other
index-set_field key other v (object fs) differs = ap or_null (find-put_other key v other fs differs)
index-set_field key other v null differs = rw differs refl
index-set_field key other v (bool b) differs = refl
index-set_field key other v (number n) differs = refl
index-set_field key other v (string s) differs = refl
index-set_field key other v (array vs) differs = refl

pub typed-set_field :
    (key : String) (v b : Value)
    → str_eq key "type" ≡ false
    → typed block_kind (set_field key v b) ≡ typed block_kind b
typed-set_field key v b differs =
    ap (λ t. elim (as_str t) [ some name ↦ block_kind name | none ↦ none ])
      (index-set_field key "type" v b differs)

pub typed-append_text :
    (thought : Bool) (text : String) (b : Value)
    → typed block_kind (append_text (field_of thought) text b) ≡ typed block_kind b
typed-append_text true text b = typed-set_field "thinking" _ b refl
typed-append_text false text b = typed-set_field "text" _ b refl

pub signed-AreOf :
    (carrier : String) (bs : List Value) (ks : List Kind)
    → AreOf bs ks
    → AreOf (signed carrier bs) ks
signed-AreOf carrier [] [] h = tt
signed-AreOf carrier (b ∷ bs) (k ∷ ks) h = elim (Bool-cases (is_thinking b)) [
  | inl e ↦
      rw e
        (typed-set_field "signature" (string carrier) b refl ∙ h.0, signed-AreOf carrier bs ks h.1)
  | inr e ↦ rw e (h.0, signed-AreOf carrier bs ks h.1)
]
signed-AreOf carrier [] (k ∷ ks) h = absurd h
signed-AreOf carrier (b ∷ bs) [] h = absurd h

abbrev pub kind_of : Bool → Kind
kind_of thought = if thought then Kind.thinking else Kind.text

abbrev pub IsActive : List Kind → Option (ℕ × Bool) → Type 0
IsActive kinds none = Unit {0}
IsActive kinds (some (i, thought)) = get_elem? kinds i ≡ some (kind_of thought)

pub record Tracks (started : Bool) (content : List Value) (active : Option (ℕ × Bool)) (c : Client)
    : Type 0 where
  pub live : started ≡ true
  pub is_open : IsOpen c
  pub of_kinds : AreOf content c.kinds
  pub active_at : IsActive c.kinds active

abbrev pub IsTracked : NativeStream → Client → Type 0
IsTracked s c = Tracks s.started s.message.content s.active c

abbrev pub IsFollowed : Client → Step → Type 0
IsFollowed = IsAccepted IsTracked

-- Before the first chunk.
pub record Idle (started : Bool) (content : List Value) (active : Option (ℕ × Bool))
    (reason : Option String) (c : Client) : Type 0 where
  pub unstarted : started ≡ false
  pub no_content : content ≡ []
  pub none_active : active ≡ none
  pub no_reason : reason ≡ none
  pub is_new : c ≡ new_client

IsActive-append :
    (kinds : List Kind) (k : Kind) (active : Option (ℕ × Bool))
    → IsActive kinds active
    → IsActive (kinds ++ k ∷ []) active
IsActive-append kinds k none h = tt
IsActive-append kinds k (some (i, thought)) h = get_elem?-append kinds (k ∷ []) i h

-- One more block.
pub Tracks-block :
    {started : Bool} {content : List Value} {active : Option (ℕ × Bool)} (c : Client) (b : Value)
    (k : Kind)
    → Tracks started content active c
    → typed block_kind b ≡ some k
    → Tracks started (content ++ b ∷ []) active (with_kind c k)
Tracks-block {content} {active} c b k t of_k = record {
  live = t.live;
  is_open = with_kind-IsOpen c k t.is_open;
  of_kinds = AreOf-append content c.kinds b k t.of_kinds of_k;
  active_at = IsActive-append c.kinds k active t.active_at;
}

-- The block at an index changes, and keeps its kind.
pub Tracks-change_elem :
    {started : Bool} {content : List Value} {active : Option (ℕ × Bool)} (c : Client) (i : ℕ)
    (f : Value → Value)
    → ((b : Value) → typed block_kind (f b) ≡ typed block_kind b)
    → Tracks started content active c
    → Tracks started (change_elem i f content) active c
Tracks-change_elem {content} c i f keeps t = record {
  live = t.live;
  is_open = t.is_open;
  of_kinds = AreOf-change_elem f keeps i content c.kinds t.of_kinds;
  active_at = t.active_at;
}

pub Tracks-active :
    {started : Bool} {content : List Value} {active : Option (ℕ × Bool)} (c : Client)
    (now : Option (ℕ × Bool))
    → Tracks started content active c
    → IsActive c.kinds now
    → Tracks started content now c
Tracks-active c now t h = record {
  live = t.live;
  is_open = t.is_open;
  of_kinds = t.of_kinds;
  active_at = h;
}

-- The new block is the one that the number of the blocks before names.
pub block_at :
    {started : Bool} {content : List Value} {active : Option (ℕ × Bool)} (c : Client) (k : Kind)
    → Tracks started content active c
    → get_elem? (c.kinds ++ k ∷ []) (length content) ≡ some k
block_at {content} c k t =
    rw (AreOf-length content c.kinds t.of_kinds) (get_elem?-append_length c.kinds k)
