-- ===== src/Chat/Stream/Calls.antt =====
-- The invariant that the calls of a client are those of the state.
use hey_proxy.Base.{
  ℕ, String, false, Option, none, some, List, [], ◌∷◌, ◌++◌, ◌≡◌, sym, ap, ◌∙◌, arith, ◌==◌, length,
  length-append, get_elem?, get_elem?-append, get_elem?-append_length, lt-length_of_get_elem?,
  Bool-cases, inl, inr, ◌⊎◌, ==_iff, ◌<◌,
}
use hey_proxy.Base.Text.{join}
use hey_proxy.Base.Maps.{
  find_key, put_key, find_key-put_key, find_key-put_key_other, length-put_key_new,
  length-put_key_old,
}
use hey_proxy.Json.{Value}
use hey_proxy.Json.Access.{index}
use hey_proxy.Chat.Deltas.{Tool}
use hey_proxy.Chat.Client.{
  Call, change_call, continued, get_elem?-change_call, get_elem?-change_call_other,
  length-change_call,
}

-- The call that a tool of the state stands for.
abbrev pub call_of : Tool → Call
call_of (n, item, args) = record {
  id = index item "call_id";
  name = index item "name";
  arguments = args;
}

abbrev pub find_tool : ℕ → List (ℕ × Tool) → Option Tool
find_tool key tools = find_key ◌==◌ key tools

-- The client's calls are those of the state, each at its number.
pub record Agrees (tools : List (ℕ × Tool)) (calls : List Call) : Type 0 where
  pub told :
      (key : ℕ) (t : Tool) → find_tool key tools ≡ some t → get_elem? calls t.0 ≡ some (call_of t)
  pub distinct :
      (key other : ℕ) (t u : Tool)
      → find_tool key tools ≡ some t
      → find_tool other tools ≡ some u
      → t.0 ≡ u.0
      → key ≡ other
  pub counted : length calls ≡ length tools

-- Where one tool was put, a tool that is found is that one, or was there before.
pub found-put_key :
    (key j : ℕ) (t u : Tool) (tools : List (ℕ × Tool))
    → find_tool j (put_key ◌==◌ key t tools) ≡ some u
    → ((key ≡ j) × (t ≡ u)) ⊎ (((key == j) ≡ false) × (find_tool j tools ≡ some u))
found-put_key key j t u tools h = elim (Bool-cases (key == j)) [
  | inl e ↦
      let same : key ≡ j = (==_iff key j).0 e in
      let at_key : find_tool key (put_key ◌==◌ key t tools) ≡ some u =
        ap (λ x. find_tool x (put_key ◌==◌ key t tools)) same ∙ h in
      let again : find_tool key (put_key ◌==◌ key t tools) ≡ some t =
        find_key-put_key key t tools in
      inl (same, cc)
  | inr e ↦ inr (e, sym (find_key-put_key_other key t j tools e) ∙ h)
]

module _ (tools : List (ℕ × Tool)) (calls : List Call) (a : Agrees tools calls) (key : ℕ) where
  numbers_below : (j : ℕ) (u : Tool) → find_tool j tools ≡ some u → u.0 < length calls
  numbers_below j u h = lt-length_of_get_elem? calls u.0 (a.told j u h)

  -- A new call at the next number.
  pub Agrees-open :
      (item : Value)
      → find_tool key tools ≡ none
      → Agrees
          (put_key ◌==◌ key (length tools, item, "") tools)
          (calls ++ call_of (length tools, item, "") ∷ [])
  Agrees-open item absent =
      let t : Tool = (length tools, item, "") in
      record {
        told = λ j u h. elim (found-put_key key j t u tools h) [
          | inl (same, e) ↦
              (let at_end : get_elem? (calls ++ call_of t ∷ []) (length calls) ≡ some (call_of t) =
                  get_elem?-append_length calls (call_of t) in
                ap (λ n. get_elem? (calls ++ call_of t ∷ []) n)
                  (sym (ap (λ p. p.0) e) ∙ sym a.counted)
                ∙ at_end
                ∙ ap (λ p. some (call_of p)) e)
          | inr (differs, before) ↦ get_elem?-append calls (call_of t ∷ []) u.0 (a.told j u before)
        ];
        distinct = λ j k u w hu hw e. elim (found-put_key key j t u tools hu) [
          | inl (same, eu) ↦ elim (found-put_key key k t w tools hw) [
            | inl (same', ew) ↦ sym same ∙ same'
            | inr (differs, before) ↦
                (let f : t.0 ≡ u.0 = ap (λ p. p.0) eu in
                  absurd (omega (arith, numbers_below k w before, f, e, a.counted)))
          ]
          | inr (differs, before) ↦ elim (found-put_key key k t w tools hw) [
            | inl (same', ew) ↦
                (let f : t.0 ≡ w.0 = ap (λ p. p.0) ew in
                  absurd (omega (arith, numbers_below j u before, f, e, a.counted)))
            | inr (differs', before') ↦ a.distinct j k u w before before' e
          ]
        ];
        counted = omega (
          arith,
          a.counted,
          length-append calls (call_of t ∷ []),
          length-put_key_new key t tools absent,
        );
      }

  number_differs :
      (n : ℕ) (item : Value) (args : String)
      → find_tool key tools ≡ some (n, item, args)
      → (j : ℕ) (u : Tool) → find_tool j tools ≡ some u
      → (key == j) ≡ false
      → (n == u.0) ≡ false
  number_differs n item args found j u before differs = elim (Bool-cases (n == u.0)) [
    | inl e ↦
        let same : key ≡ j = a.distinct key j (n, item, args) u found before ((==_iff n u.0).0 e) in
        absurd (ground (arith, same, differs))
    | inr e ↦ e
  ]

  -- More arguments of a call.
  pub Agrees-continue :
      (n : ℕ) (item : Value) (args delta : String)
      → find_tool key tools ≡ some (n, item, args)
      → Agrees
          (put_key ◌==◌ key (n, item, join args delta) tools)
          (change_call n (continued delta) calls)
  Agrees-continue n item args delta found =
      let t : Tool = (n, item, join args delta) in
      let old : Tool = (n, item, args) in
      record {
        told = λ j u h. elim (found-put_key key j t u tools h) [
          | inl (same, e) ↦
              (let now : get_elem? (change_call n (continued delta) calls) n ≡ some (call_of t) =
                  get_elem?-change_call n (continued delta) calls (call_of old)
                    (a.told key old found) in
                ap (λ m. get_elem? (change_call n (continued delta) calls) m)
                  (sym (ap (λ p. p.0) e))
                ∙ now
                ∙ ap (λ p. some (call_of p)) e)
          | inr (differs, before) ↦
              (get_elem?-change_call_other n u.0 (continued delta) calls
                  (number_differs n item args found j u before differs)
                ∙ a.told j u before)
        ];
        distinct = λ j k u w hu hw e. elim (found-put_key key j t u tools hu) [
          | inl (same, eu) ↦ elim (found-put_key key k t w tools hw) [
            | inl (same', ew) ↦ sym same ∙ same'
            | inr (differs, before) ↦
                sym same ∙ a.distinct key k old w found before (ap (λ p. p.0) eu ∙ e)
          ]
          | inr (differs, before) ↦ elim (found-put_key key k t w tools hw) [
            | inl (same', ew) ↦
                a.distinct j key u old before found (e ∙ sym (ap (λ p. p.0) ew)) ∙ same'
            | inr (differs', before') ↦ a.distinct j k u w before before' e
          ]
        ];
        counted = omega (
          arith,
          a.counted,
          length-change_call n (continued delta) calls,
          length-put_key_old key t tools old found,
        );
      }
