-- ===== src/Provider/Agreement.antt =====
-- `validSessionCapabilities` of provider-dispatcher.ts: what the capabilities of a session have in
-- common with those of the envelope.
use retrom.Prelude.{
  ◌≡◌, refl, ap, sym, subst, ◌∙◌, Bool, true, false, ◌&&◌, List, [], ◌∷◌, Option, none, some, All,
  all_sound, ℤ, and-eq-true_iff, Bool-cases, inl, inr, map, arith,
}
use mathlib.Core.List.{Perm}
use retrom.Text.{Text, lit, same, same_sound, precedes}
use retrom.Value.{Value, Items, null, bool, num, str, array, object, nil, cons, items, has_own}
use retrom.Envelope.Checks.{get, prop, own_fields, own_keys, exact_keys, on_array, on_record}
use retrom.Envelope.Texts.{insert, sort, ascending}
use retrom.Envelope.Sorting.{all_same_sound, exact_keys_iff}
use retrom.Provider.Contract.{
  strict_same, all_strict_same, string_arrays_equal, agrees, scalar_keys, session_keys,
  session_capabilities_agree, valid_session_capabilities, is_bool_of, same_number,
}
use retrom.Envelope.Runtime.{is_null}
use retrom.Envelope.Inversion.{on_text_sound, on_number_sound, on_array_sound, on_record_sound}

is_null_sound : (w : Option Value) → is_null w ≡ true → some null ≡ w
is_null_sound (some null) h = refl
is_null_sound (some (bool b)) h = cc
is_null_sound (some (num n)) h = cc
is_null_sound (some (str s)) h = cc
is_null_sound (some (array vs)) h = cc
is_null_sound (some (object proto fs)) h = cc
is_null_sound none h = cc

is_bool_of_sound : (a : Bool) (w : Option Value) → is_bool_of a w ≡ true → some (bool a) ≡ w
is_bool_of_sound a (some null) h = ground arith
is_bool_of_sound true (some (bool b)) h = ground arith
is_bool_of_sound false (some (bool b)) h = ground arith
is_bool_of_sound a (some (num n)) h = ground arith
is_bool_of_sound a (some (str s)) h = ground arith
is_bool_of_sound a (some (array vs)) h = ground arith
is_bool_of_sound a (some (object proto fs)) h = ground arith
is_bool_of_sound a none h = ground arith

same_number_sound : (n m : ℤ) → same_number n m ≡ true → n ≡ m
same_number_sound n m h = ground arith

pub strict_same_sound : (v w : Option Value) → strict_same v w ≡ true → v ≡ w
unfolding strict_same
strict_same_sound none none h = refl
strict_same_sound none (some w) h = cc
strict_same_sound (some null) w h = is_null_sound w h
strict_same_sound (some (bool b)) w h = is_bool_of_sound b w h
strict_same_sound (some (num n)) w h =
    let (m, e, k) = on_number_sound (same_number n) w h in
    ap (λ i. some (num i)) (same_number_sound n m k) ∙ sym e
strict_same_sound (some (str s)) w h =
    let (t, e, k) = on_text_sound (same s) w h in ap (λ i. some (str i)) (same_sound s t k) ∙ sym e
strict_same_sound (some (array vs)) w h = cc
strict_same_sound (some (object proto fs)) w h = cc

all_strict_same_sound : (vs ws : Items) → all_strict_same (items vs) (items ws) ≡ true → vs ≡ ws
unfolding all_strict_same
all_strict_same_sound nil nil h = refl
all_strict_same_sound nil (cons w ws) h = cc
all_strict_same_sound (cons v vs) nil h = cc
all_strict_same_sound (cons v vs) (cons w ws) h =
    let (here, later) = (and-eq-true_iff _ _).0 h in
    cc (strict_same_sound (some v) (some w) here, all_strict_same_sound vs ws later)

string_arrays_equal_sound : (v w : Option Value) → string_arrays_equal v w ≡ true → v ≡ w
string_arrays_equal_sound v w h =
    let (vs, e, k) = on_array_sound (λ us. on_array (all_strict_same us) w) v h in
    let (ws, e', k') = on_array_sound (all_strict_same (items vs)) w k in
    e ∙ ap (λ us. some (array us)) (all_strict_same_sound vs ws k') ∙ sym e'

-- A capability of the session is the one of the envelope.
abbrev pub HaveSame : Value → Value → Text → Type 0
HaveSame actual expected k = get k actual ≡ get k expected

-- The own keys are the known ones, that of content loading perhaps left out; each capability of the
-- session is that of the envelope, and so is what is read at each known key.
abbrev pub Agree : Value → Value → Type 0
Agree actual expected =
    All (HaveSame actual expected) (own_keys actual)
    × ((loading : Bool) × Perm (own_keys actual) (map lit (session_keys loading)))
    × All (HaveSame actual expected) (map lit (session_keys true))

session_keys-ascending : (loading : Bool) → ascending (map lit (session_keys loading)) ≡ true
unfolding ascending precedes
session_keys-ascending true = refl
session_keys-ascending false = refl

All-insert : (P : Text → Type 0) (k : Text) (ks : List Text) → All P (insert k ks) → P k × All P ks
unfolding insert
All-insert P k [] h = h
All-insert P k (j ∷ js) h = elim (Bool-cases (precedes j k)) [
  | inl e ↦
      let (first, rest) : P j × All P (insert k js) = rw e at h in
      let (here, later) = All-insert P k js rest in (here, (first, later))
  | inr e ↦ rw e at h
]

All-sort : (P : Text → Type 0) (ks : List Text) → All P (sort ks) → All P ks
unfolding sort
All-sort P [] h = tt
All-sort P (k ∷ ks) h =
    let (here, later) = All-insert P k (sort ks) h in (here, All-sort P ks later)

module _ (actual expected : Value) where
  -- The keys that `validSessionCapabilities` compares, in the order of `session_keys`.
  known-HaveSame :
      HaveSame actual expected (lit "contentLoading")
      → All (λ k. HaveSame actual expected (lit k)) scalar_keys
      → HaveSame actual expected (lit "videoModes")
      → (loading : Bool) → All (HaveSame actual expected) (map lit (session_keys loading))
  known-HaveSame load (a, (b, (c, (d, (e, (f, (g, (h, (i, (j, _)))))))))) modes true =
      (a, (load, (b, (c, (d, (e, (f, (g, (h, (i, (modes, (j, tt))))))))))))
  known-HaveSame load (a, (b, (c, (d, (e, (f, (g, (h, (i, (j, _)))))))))) modes false =
      (a, (b, (c, (d, (e, (f, (g, (h, (i, (modes, (j, tt)))))))))))

  exact-HaveSame :
      (loading : Bool)
      → exact_keys actual (session_keys loading) ≡ true
      → ((b : Bool) → All (HaveSame actual expected) (map lit (session_keys b)))
      → Agree actual expected
  unfolding exact_keys
  exact-HaveSame loading exact known =
      let sorted = all_same_sound (sort (own_keys actual)) (map lit (session_keys loading)) exact in
      (
        All-sort (HaveSame actual expected) (own_keys actual)
            (subst (All (HaveSame actual expected)) (sym sorted) (known loading)),
        (
          loading,
          (exact_keys_iff actual (session_keys loading) (session_keys-ascending loading)).0 exact,
        ),
        known true,
      )

parts :
    (a b c d : Bool) → (a && b && c && d) ≡ true → (a ≡ true) × (b ≡ true) × (c ≡ true) × (d ≡ true)
parts a b c d h = ground arith

session_capabilities-Agree :
    (expected actual : Value)
    → session_capabilities_agree expected actual ≡ true
    → Agree actual expected
unfolding session_capabilities_agree
session_capabilities-Agree expected actual h =
    let (exact, loading, scalars, modes) = parts _ _ _ _ h in
    exact-HaveSame actual expected (has_own (lit "contentLoading") (own_fields actual)) exact (
      known-HaveSame actual expected (strict_same_sound _ _ loading)
        (all_sound (λ k. HaveSame actual expected (lit k)) (agrees actual expected)
          (λ k e. strict_same_sound (prop k actual) (prop k expected) e) scalar_keys scalars)
        (string_arrays_equal_sound _ _ modes))

-- Capabilities of a session that are accepted are an object, whose own keys are the known ones, that
-- of content loading perhaps left out. Each of its capabilities is that of the envelope, and so is
-- what is read at each known key.
pub valid_session_capabilities-Agree :
    (actual expected : Option Value)
    → valid_session_capabilities actual expected ≡ true
    → (a : Value) × (e : Value) × (actual ≡ some a) × (expected ≡ some e) × Agree a e
unfolding valid_session_capabilities
valid_session_capabilities-Agree actual expected h =
    let (e, is_e, k) =
      on_record_sound (λ e. on_record (session_capabilities_agree e) actual) expected h in
    let (a, is_a, agree) = on_record_sound (session_capabilities_agree e) actual k in
    (a, e, is_a, is_e, session_capabilities-Agree e a agree)
