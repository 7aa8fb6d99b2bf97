-- ===== src/Capacity/Translation.antt =====
-- src/proxy/capacity.rs: what the translation of a capacity failure keeps, and that it happens once.
use mathlib.Core.Option.{some-injective}
use mathlib.Core.Path.{subst}
use hey_proxy.Base.{
  arith, eq_iff, ◌≡◌, refl, sym, ap, ◌∙◌, String, Bool, true, false, ◌||◌, Option, none, some, List,
  [], ◌∷◌, if◌then◌else◌, str_eq, Bool-cases, inl, inr,
}
use hey_proxy.Base.Text.{strip_prefix-join}
use hey_proxy.Json.{Value, null, bool, number, string, array, object, Fields}
use hey_proxy.Json.Access.{find_field, index, or_null}
use hey_proxy.Json.Update.{
  put_field, find-put, find-put_other, change_at, map_some, map_some-eq-some, change_at-once,
  change_at-IsChanged, change_at-object,
}
use hey_proxy.Capacity.{
  text_of, is_capacity, explained, keep_code, rewrite_error, status_500, set_status, set_if_present,
  event_value, translate,
}

-- A translated error: its own code and type, the upstream's code kept beside them, and a message that says so.
record IsTranslated (fs gs : Fields) : Type 0 where
  pub code : find_field "code" gs ≡ some (string "server_error")
  pub kind : find_field "type" gs ≡ some (string "server_error")
  pub message :
      find_field "message" gs ≡ some (string (explained (text_of (index (object fs) "message"))))
  pub upstream :
      (code : Value) → find_field "code" fs ≡ some code → find_field "upstream_code" gs ≡ some code

abbrev rewritten : Fields → Fields
rewritten fs = put_field "message" (string (explained (text_of (index (object fs) "message")))) (
    put_field "type" (string "server_error")
      (put_field "code" (string "server_error") (keep_code (find_field "code" fs) fs)))

upstream-keep_code :
    (o : Option Value) (fs : Fields) (code : Value)
    → o ≡ some code
    → find_field "upstream_code" (keep_code o fs) ≡ some code
upstream-keep_code none fs code e = cc
upstream-keep_code (some c) fs code e = find-put "upstream_code" c fs ∙ e

rewritten-IsTranslated : (fs : Fields) → IsTranslated fs (rewritten fs)
rewritten-IsTranslated fs =
    let kept = keep_code (find_field "code" fs) fs in
    let coded = put_field "code" (string "server_error") kept in
    let typed = put_field "type" (string "server_error") coded in
    let m = string (explained (text_of (index (object fs) "message"))) in
    record {
      code =
          find-put_other "message" m "code" typed refl
          ∙ find-put_other "type" (string "server_error") "code" coded refl
          ∙ find-put "code" (string "server_error") kept;
      kind =
          find-put_other "message" m "type" typed refl
          ∙ find-put "type" (string "server_error") coded;
      message = find-put "message" m typed;
      upstream = λ code e.
          find-put_other "message" m "upstream_code" typed refl
          ∙ find-put_other "type" (string "server_error") "upstream_code" coded refl
          ∙ find-put_other "code" (string "server_error") "upstream_code" kept refl
          ∙ upstream-keep_code (find_field "code" fs) fs code e;
    }

if-eq-some :
    {A : Type 0} (b : Bool) (a w : A) → (if b then some a else none) ≡ some w → (b ≡ true) × (a ≡ w)
if-eq-some true a w e = (refl, some-injective a w e)
if-eq-some false a w e = cc

rewrite_error-IsTranslated :
    (fs : Fields) (w : Value)
    → rewrite_error (object fs) ≡ some w
    → (is_capacity (object fs) ≡ true) × ((gs : Fields) × ((object gs ≡ w) × IsTranslated fs gs))
unfolding rewrite_error
rewrite_error-IsTranslated fs w e =
    let (failed, is) = if-eq-some (is_capacity (object fs)) (object (rewritten fs)) w e in
    (failed, (rewritten fs, (is, rewritten-IsTranslated fs)))

refused_or : (b c : Bool) → (if b || true then false else c) ≡ false
refused_or b c = ground arith

translated_once : (fs gs : Fields) → IsTranslated fs gs → is_capacity (object gs) ≡ false
unfolding is_capacity
translated_once fs gs t = rw (t.code, t.message, strip_prefix-join) (refused_or _ _)

rewrite_error-refused :
    (gs : Fields) → is_capacity (object gs) ≡ false → rewrite_error (object gs) ≡ none
unfolding rewrite_error
rewrite_error-refused gs h = rw h

-- An error that was translated is not translated again.
rewrite_error-once : (v w : Value) → rewrite_error v ≡ some w → rewrite_error w ≡ none
rewrite_error-once (object fs) w e =
    let (failed, (gs, (is, t))) = rewrite_error-IsTranslated fs w e in
    subst (λ u. rewrite_error u ≡ none) is (rewrite_error-refused gs (translated_once fs gs t))
rewrite_error-once null w e = unfold rewrite_error in cc
rewrite_error-once (bool b) w e = unfold rewrite_error in cc
rewrite_error-once (number n) w e = unfold rewrite_error in cc
rewrite_error-once (string s) w e = unfold rewrite_error in cc
rewrite_error-once (array vs) w e = unfold rewrite_error in cc

find-set_if_present :
    (o : Option Value) (key other : String) (fs : Fields)
    → str_eq key other ≡ false
    → find_field other (set_if_present o key fs) ≡ find_field other fs
find-set_if_present none key other fs ne = refl
find-set_if_present (some v) key other fs ne = find-put_other key status_500 other fs ne

-- The status leaves the type and the error as they are.
set_status-others :
    (fs : Fields)
    → (hs : Fields) × ((set_status (object fs) ≡ object hs)
        × ((other : String)
            → str_eq "status" other ≡ false
            → str_eq "status_code" other ≡ false
            → find_field other hs ≡ find_field other fs))
unfolding set_status
set_status-others fs =
    let gs = put_field "status" status_500 fs in
    let hs = set_if_present (find_field "status" gs) "status" gs in
    (
      _,
      (
        refl,
        (λ other p q.
            find-set_if_present (find_field "status_code" hs) "status_code" other hs q
            ∙ find-set_if_present (find_field "status" gs) "status" other gs p
            ∙ find-put_other "status" status_500 other fs p),
      ),
    )

pub data Translates (v w : Value) : String → Type 0 where
  failed :
      change_at ("response" ∷ "error" ∷ []) rewrite_error v ≡ some w
      → Translates v w "response.failed"
  error :
      (u : Value)
      → change_at ("error" ∷ []) rewrite_error v ≡ some u
      → set_status u ≡ w
      → Translates v w "error"

translate-Translates :
    (kind : String) (v w : Value) → translate kind v ≡ some w → Translates v w kind
unfolding translate
translate-Translates kind v w e = elim (Bool-cases (str_eq kind "response.failed")) [
  | inl is ↦
      let same = (eq_iff kind "response.failed").0 is in
      subst (Translates v w) (sym same) (failed (subst (λ k. translate k v ≡ some w) same e))
  | inr not_failed ↦ elim (Bool-cases (str_eq kind "error")) [
    | inl is ↦
        let same = (eq_iff kind "error").0 is in
        let (u, (by, set)) =
          map_some-eq-some set_status (change_at ("error" ∷ []) rewrite_error v) w
            (subst (λ k. translate k v ≡ some w) same e) in
        subst (Translates v w) (sym same) (error u by set)
    | inr not_error ↦ let refuses : translate kind v ≡ none = rw (not_error, not_failed) in cc
  ]
]

-- The type of an event whose error was changed is the one it had.
kind-kept :
    (path : List String) (key : String) (v w : Value)
    → str_eq key "type" ≡ false
    → change_at (key ∷ path) rewrite_error v ≡ some w
    → (gs : Fields) × ((object gs ≡ w) × (index (object gs) "type" ≡ index v "type"))
kind-kept path key v w ne e =
    let (fs, (gs, (from, (is, c)))) = change_at-IsChanged key path rewrite_error v w e in
    (gs, (is, ap or_null (c.others "type" ne) ∙ sym (ap (λ u. index u "type") from)))

Translates-once :
    (v w : Value) (kind : String)
    → text_of (index v "type") ≡ kind
    → Translates v w kind
    → event_value w ≡ none
unfolding event_value translate
Translates-once v w kind is (failed by) =
    let (gs, (same, kept)) = kind-kept ("error" ∷ []) "response" v w refl by in
    let now : text_of (index w "type") ≡ "response.failed" =
      ap (λ u. text_of (index u "type")) (sym same) ∙ ap text_of kept ∙ is in
    rw now (change_at-once rewrite_error rewrite_error-once ("response" ∷ "error" ∷ []) v w by)
Translates-once v w kind is (error u by set) =
    let (fs, (gs, (from, (same, c)))) = change_at-IsChanged "error" [] rewrite_error v u by in
    let (hs, (stated, others)) = set_status-others gs in
    let made : object hs ≡ w = sym stated ∙ ap set_status same ∙ set in
    let now : text_of (index (object hs) "type") ≡ "error" =
      ap (λ o. text_of (or_null o)) (others "type" refl refl ∙ c.others "type" refl)
      ∙ ap (λ x. text_of (index x "type")) (sym from)
      ∙ is in
    let refuses : change_at ("error" ∷ []) rewrite_error (object hs) ≡ none =
      change_at-object "error" [] rewrite_error hs c.after (others "error" refl refl ∙ c.became)
        (unfold change_at in rewrite_error-once c.before c.after (unfold change_at in c.by)) in
    subst (λ x. event_value x ≡ none) made (rw now (ap (map_some set_status) refuses))

-- A translated event is not translated again: the proxy that sees its own error leaves it alone.
pub event_value-once : (v w : Value) → event_value v ≡ some w → event_value w ≡ none
event_value-once v w e =
    Translates-once v w _ refl
      (translate-Translates (text_of (index v "type")) v w (unfold event_value in e))
