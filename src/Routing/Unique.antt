-- ===== src/Routing/Unique.antt =====
-- src/config.rs, `validate_routing`: the aliases of a valid configuration are unambiguous.
use mathlib.Core.Path.{subst}
use hey_proxy.Base.{
  ◌≤◌, ◌≡◌, refl, sym, ap, ◌∙◌, inl, inr, String, Bool, true, false, not, ◌&&◌, ◌||◌, Option, none,
  some, List, [], ◌∷◌, ◌++◌, Memᴰ, arith, any, filter, length, Bool-cases, All, str_eq, eq_iff,
  Result, ok, ◌>>◌, ensure, ensure-eq-ok, then-eq-ok, ||-eq-false, not-eq-true, &&-eq-true,
}
use hey_proxy.Json.Access.{is_some_and}
use hey_proxy.Routing.{
  ApiShape, same_shape, same_shapes, from_path, Alias, Config, is_none, matches_shape, matches,
  RoutingError, empty_alias, is_blank, not_unique, overlapping, is_taken, overlaps, validate_alias,
  validate_aliases, validate_routes, validate_routing,
}

-- Two aliases that no model and path both match.
abbrev conflicts : Alias → Alias → Bool
conflicts a b =
    str_eq a.from b.from
    && (same_shapes a.api_shape b.api_shape || (is_none b.api_shape || is_none a.api_shape))

str_eq_sym : (a b : String) → str_eq a b ≡ str_eq b a
str_eq_sym a b = elim (Bool-cases (str_eq a b)) [
  | inl same ↦ same ∙ sym ((eq_iff b a).1 (sym ((eq_iff a b).0 same)))
  | inr differs ↦ elim (Bool-cases (str_eq b a)) [
    | inl same ↦ (eq_iff a b).1 (sym ((eq_iff b a).0 same)) ∙ sym same
    | inr differ ↦ differs ∙ sym differ
  ]
]

same_shape-eq : (a b : ApiShape) → same_shape a b ≡ true → a ≡ b
same_shape-eq a b h = ground arith

same_shape_refl : (a : ApiShape) → same_shape a a ≡ true
same_shape_refl a = ground arith

-- Shapes that allow the same path are the same, or one of them allows every path.
shapes_meet :
    (x y p : Option ApiShape)
    → (is_none x || same_shapes x p) ≡ true
    → (is_none y || same_shapes y p) ≡ true
    → (same_shapes x y || (is_none y || is_none x)) ≡ true
shapes_meet none none p h k = refl
shapes_meet none (some t) p h k = refl
shapes_meet (some s) none p h k = refl
shapes_meet (some s) (some t) none h k = cc
shapes_meet (some s) (some t) (some u) h k =
    let is : s ≡ t = same_shape-eq s u h ∙ sym (same_shape-eq t u k) in
    ap (λ b. b || (false || false)) (sym (ap (same_shape s) is) ∙ same_shape_refl s)

refuted : (b c : Bool) → b ≡ true → (b && c) ≡ false → c ≡ true → true ≡ false
refuted b c x h y = ground arith

no_conflict :
    (a b : Alias) (model path : String)
    → conflicts a b ≡ false
    → matches model path a ≡ true
    → matches model path b ≡ false
no_conflict a b model path clear m = elim (Bool-cases (matches model path b)) [
  | inr other ↦ other
  | inl also ↦
      let (named, shaped) = &&-eq-true (str_eq a.from model) (matches_shape a path) m in
      let (named_too, shaped_too) = &&-eq-true (str_eq b.from model) (matches_shape b path) also in
      let same : str_eq a.from b.from ≡ true =
        (eq_iff a.from b.from).1
          ((eq_iff a.from model).0 named ∙ sym ((eq_iff b.from model).0 named_too)) in
      also
      ∙ refuted _ _ same clear
          (shapes_meet a.api_shape b.api_shape (from_path path) shaped shaped_too)
]

-- Each alias of the rest is apart from those before it.
abbrev IsApart : List Alias → List Alias → Type 0
IsApart before [] = Unit {0}
IsApart before (b ∷ rest) =
    All (λ a. conflicts a b ≡ false) before × IsApart (before ++ b ∷ []) rest

any-append :
    (p : Alias → Bool) (xs ys : List Alias)
    → any p (xs ++ ys) ≡ false
    → (any p xs ≡ false) × (any p ys ≡ false)
any-append p [] ys h = (refl, h)
any-append p (x ∷ xs) ys h =
    let (here, there) = ||-eq-false (p x) (any p (xs ++ ys)) h in
    let (left, right) = any-append p xs ys there in (ground (arith, here, left), right)

joined : (x y s n : Bool) → x ≡ y → (x && s) ≡ false → (y && n) ≡ false → (x && (s || n)) ≡ false
joined x y s n e h k = ground arith

apart :
    (b : Alias) (before : List Alias)
    → is_taken b before ≡ false
    → overlaps b before ≡ false
    → All (λ a. conflicts a b ≡ false) before
apart b [] t o = tt
apart b (a ∷ before) t o =
    let (t1, ts) = ||-eq-false _ _ t in
    let (o1, os) = ||-eq-false _ _ o in
    (joined _ _ _ _ (str_eq_sym a.from b.from) t1 o1, apart b before ts os)

pub All-Mem : (P : Alias → Type 0) {a : Alias} (xs : List Alias) → All P xs → Memᴰ a xs → P a
All-Mem P [] k m = elim m [ ]
All-Mem P (x ∷ xs) (p, k) (Memᴰ.head e) = subst P (sym e) p
All-Mem P (x ∷ xs) (p, k) (Memᴰ.tail m) = All-Mem P xs k m

Mem-longer : {a : Alias} {xs : List Alias} (b : Alias) → Memᴰ a xs → Memᴰ a (xs ++ b ∷ [])
Mem-longer b (Memᴰ.head e) = Memᴰ.head e
Mem-longer b (Memᴰ.tail m) = Memᴰ.tail (Mem-longer b m)

Mem-last : (xs : List Alias) (b : Alias) → Memᴰ b (xs ++ b ∷ [])
Mem-last [] b = Memᴰ.head refl
Mem-last (x ∷ xs) b = Memᴰ.tail (Mem-last xs b)

module _ (keys : List String) (before after : List Alias) (alias : Alias) where
  abbrev unique_one : Result RoutingError (Unit {0})
  unique_one = ensure (not (str_eq alias.from "" || is_taken alias before)) not_unique

  abbrev clear_one : Result RoutingError (Unit {0})
  clear_one = ensure (not (overlaps alias (before ++ after))) overlapping

  validate_alias-eq-ok :
      validate_alias keys before alias after ≡ ok tt
      → (is_taken alias before ≡ false) × (overlaps alias (before ++ after) ≡ false)
  unfolding validate_alias
  validate_alias-eq-ok h =
      let routes = validate_routes keys alias.reasoning_routes in
      let filled =
        ensure (not (is_some_and is_blank alias.to || is_some_and is_blank alias.reasoning))
          empty_alias in
      let (h4, _) = then-eq-ok (routes >> unique_one >> clear_one >> filled) _ h in
      let (h3, _) = then-eq-ok (routes >> unique_one >> clear_one) filled h4 in
      let (h2, clear) = then-eq-ok (routes >> unique_one) clear_one h3 in
      let (_, unique) = then-eq-ok routes unique_one h2 in
      (
        (||-eq-false _ _ (not-eq-true _ (ensure-eq-ok _ not_unique unique))).1,
        not-eq-true _ (ensure-eq-ok _ overlapping clear),
      )

-- What the loop over the aliases accepts is pairwise apart.
validate_aliases-IsApart :
    (keys : List String) (before rest : List Alias)
    → validate_aliases keys before rest ≡ ok tt
    → IsApart before rest
unfolding validate_aliases
validate_aliases-IsApart keys before [] h = tt
validate_aliases-IsApart keys before (alias ∷ after) h =
    let (this, others) = then-eq-ok (validate_alias keys before alias after) _ h in
    let (unique, clear) = validate_alias-eq-ok keys before after alias this in
    (
      apart alias before unique (any-append _ before after clear).0,
      validate_aliases-IsApart keys (before ++ alias ∷ []) after others,
    )

module _ (model path : String) where
  -- Behind a match there is no other.
  no_more :
      (a : Alias) (before rest : List Alias)
      → Memᴰ a before
      → matches model path a ≡ true
      → IsApart before rest
      → filter (matches model path) rest ≡ []
  no_more a before [] there m k = refl
  no_more a before (b ∷ rest) there m (clear, k) =
      rw (no_conflict a b model path (All-Mem (λ c. conflicts c b ≡ false) before clear there) m)
        (no_more a (before ++ b ∷ []) rest (Mem-longer b there) m k)

  one_match :
      (before rest : List Alias)
      → IsApart before rest
      → length (filter (matches model path) rest) ≤ 1
  one_match before [] k = omega arith
  one_match before (b ∷ rest) (clear, k) = elim (Bool-cases (matches model path b)) [
    | inl m ↦ rw (m, no_more b (before ++ b ∷ []) rest (Mem-last before b) m k) (omega arith)
    | inr other ↦ rw other (one_match (before ++ b ∷ []) rest k)
  ]

-- In a configuration that the validation accepts, at most one alias matches a model and a path: the order
-- of the aliases plays no part in the routing.
pub matches_unique :
    (config : Config) (model path : String)
    → validate_routing config ≡ ok tt
    → length (filter (matches model path) config.aliases) ≤ 1
unfolding validate_routing
matches_unique config model path h =
    let (_, accepted) = then-eq-ok _ (validate_aliases config.api_keys [] config.aliases) h in
    one_match model path [] config.aliases
      (validate_aliases-IsApart config.api_keys [] config.aliases accepted)
