-- ===== src/Envelope/Numbering.antt =====
-- How the resources of an accepted envelope (envelope.ts) are numbered.
use retrom.Prelude.{
  ℕ, zero, suc, ◌+◌, ◌≤◌, ◌<◌, ◌≡◌, ◌≢◌, ap, ◌∙◌, inl, inr, Bool, true, false, not, ◌&&◌, List, [],
  ◌∷◌, map, Option, some, arith, ◌==◌, length, all, leb→le, ==_iff, get_elem?, Bool-cases,
  and-eq-true_iff, ℤ, pos, negsuc,
}
use retrom.Text.{Text, same, same_sound, same_refl, same_comm}
use retrom.Value.{Value, Items, num, array, items}
use retrom.Envelope.Texts.{includes, distinct}
use retrom.Envelope.Checks.{
  prop, on_text, string_of, to_text, is_record, valid_identity, non_negative_integer,
}
use retrom.Envelope.Browser.{Platform}
use retrom.Envelope.Runtime.{is_number}
use retrom.Envelope.Inversion.{on_text_sound, on_number_sound}
use retrom.Envelope.Resources.{
  identity_of, role_of, with_role, ordinals_from, valid_each, valid_resources, valid_resource,
}

is_number_sound : (k : ℕ) (o : Option Value) → is_number k o ≡ true → o ≡ some (num (pos k))
is_number_sound k o h =
    let (n, e, t) = on_number_sound (λ n. elim n [ pos m ↦ m == k | negsuc m ↦ false ]) o h in
    e ∙ ap (λ n. some (num n)) (number n t)
  where
    number : (n : ℤ) → (elim n [ pos m ↦ m == k | negsuc m ↦ false ]) ≡ true → n ≡ pos k
    number (pos m) t = ap pos ((==_iff m k).0 t)
    number (negsuc m) t = cc

ordinals_from_sound :
    (k : ℕ) (vs : List Value) (i : ℕ) {v : Value}
    → ordinals_from k vs ≡ true
    → get_elem? vs i ≡ some v
    → prop "ordinal" v ≡ some (num (pos (k + i)))
unfolding ordinals_from
ordinals_from_sound k [] i h e = cc
ordinals_from_sound k (w ∷ vs) zero {v} h e =
    let first = is_number_sound k (prop "ordinal" w) (ground arith) in
    let same : w ≡ v = cc in rw (← same) (first ∙ ap (λ n. some (num (pos n))) (omega arith))
ordinals_from_sound k (w ∷ vs) (suc i) h e =
    let later = ordinals_from_sound (k + 1) vs i (ground arith) e in
    later ∙ ap (λ n. some (num (pos n))) (omega arith)

includes-distinct :
    (s : Text) (ss : List Text) → includes ss s ≡ true → includes (distinct ss) s ≡ true
unfolding distinct
includes-distinct s [] h = h
includes-distinct s (t ∷ ss) h = elim (Bool-cases (includes ss t)) [
  | inl k ↦ rw k (
      includes-distinct s ss
        (elim (Bool-cases (same t s)) [ inl e ↦ rw (same_sound t s e) at k | inr e ↦ rw e at h ]))
  | inr k ↦ rw k (elim (Bool-cases (same t s)) [
    | inl e ↦ rw e
    | inr e ↦ rw e (includes-distinct s ss (rw e at h))
  ])
]

all-includes :
    (p : Text → Bool) (ss : List Text) (s : Text)
    → all p ss ≡ true
    → includes ss s ≡ true
    → p s ≡ true
all-includes p [] s h k = cc
all-includes p (t ∷ ss) s h k = elim (Bool-cases (same t s)) [
  | inl e ↦ rw (← same_sound t s e) ((and-eq-true_iff (p t) (all p ss)).0 h).0
  | inr e ↦ all-includes p ss s ((and-eq-true_iff (p t) (all p ss)).0 h).1 (rw e at k)
]

role-includes :
    (role : Text) (vs : List Value) (i : ℕ) {v : Value}
    → get_elem? (with_role role vs) i ≡ some v
    → includes (map role_of vs) role ≡ true
unfolding with_role to_text
role-includes role [] i e = cc
role-includes role (w ∷ vs) i e = elim (Bool-cases (on_text (same role) (prop "role" w))) [
  | inl h ↦
      let (s, k, t) = on_text_sound (same role) (prop "role" w) h in
      let here : same (role_of w) role ≡ true = rw k (rw (same_comm s role) t) in rw here
  | inr h ↦ ground (arith, role-includes role vs i {v = _} (rw h at e))
]

ordinal-prop :
    (vs : List Value) (role : Text) (i : ℕ) {v : Value}
    → all (λ role. ordinals_from 0 (with_role role vs)) (distinct (map role_of vs)) ≡ true
    → get_elem? (with_role role vs) i ≡ some v
    → prop "ordinal" v ≡ some (num (pos i))
ordinal-prop vs role i h e =
    let listed = includes-distinct role (map role_of vs) (role-includes role vs i e) in
    let numbered =
      all-includes (λ role. ordinals_from 0 (with_role role vs)) (distinct (map role_of vs)) role h
        listed in
    ordinals_from_sound 0 (with_role role vs) i numbered e
    ∙ ap (λ n. some (num (pos n))) (omega arith)

found :
    (u v : Value) (ids : List Text) → u ≡ v → includes (identity_of u ∷ ids) (identity_of v) ≡ true
found u v ids e = rw (e, same_refl (identity_of v))

each_parts :
    (a b c d e f : Bool) → (a && b && c && not d && e && f) ≡ true → (d ≡ false) × (f ≡ true)
each_parts a b c d e f h = ground arith

module _ (platform : Platform) where
  valid_each-cons :
      (ids : List Text) (u : Value) (vs : List Value)
      → valid_each platform ids (u ∷ vs) ≡ true
      → (includes ids (identity_of u) ≡ false)
        × (valid_each platform (identity_of u ∷ ids) vs ≡ true)
  unfolding valid_each
  valid_each-cons ids u vs h =
      each_parts (is_record u) (valid_identity (prop "role" u))
        (non_negative_integer (prop "ordinal" u)) (includes ids (identity_of u))
        (valid_resource platform u) (valid_each platform (identity_of u ∷ ids) vs) h

  fresh_later :
      (ids : List Text) (vs : List Value) (j : ℕ) {w : Value} (id : Text)
      → valid_each platform ids vs ≡ true
      → includes ids id ≡ true
      → get_elem? vs j ≡ some w
      → identity_of w ≢ id
  fresh_later ids [] j id h k e = cc
  fresh_later ids (u ∷ vs) zero {w} id h k e =
      let new = (valid_each-cons ids u vs h).0 in
      let same : u ≡ w = cc in let clash = ap identity_of same in λ p. cc (rw (clash ∙ p) at new)
  fresh_later ids (u ∷ vs) (suc j) {w} id h k e =
      let later = (valid_each-cons ids u vs h).1 in
      fresh_later (identity_of u ∷ ids) vs j id later (ground arith) e

  identities_differ :
      (ids : List Text) (vs : List Value) (i j : ℕ) {v w : Value}
      → valid_each platform ids vs ≡ true
      → i < j
      → get_elem? vs i ≡ some v
      → get_elem? vs j ≡ some w
      → identity_of w ≢ identity_of v
  identities_differ ids [] i j h lt e f = cc
  identities_differ ids (u ∷ vs) zero (suc j) {v} h lt e f =
      let later = (valid_each-cons ids u vs h).1 in
      let listed : includes (identity_of u ∷ ids) (identity_of v) ≡ true = found u v ids (cc) in
      fresh_later (identity_of u ∷ ids) vs j (identity_of v) later listed f
  identities_differ ids (u ∷ vs) (suc i) (suc j) h lt e f =
      let later = (valid_each-cons ids u vs h).1 in
      identities_differ (identity_of u ∷ ids) vs i j later (omega arith) e f
  identities_differ ids (u ∷ vs) i zero h lt e f = absurd (omega arith)

-- A list of at most 128 resources, no two of which share role and ordinal, where those of a role
-- have the ordinals 0, 1, 2, … in the order of the list.
pub record IsNumbered (vs : List Value) : Type 0 where
  pub few : length vs ≤ 128
  pub apart :
      (i j : ℕ) (v w : Value)
      → i < j
      → get_elem? vs i ≡ some v
      → get_elem? vs j ≡ some w
      → ¬ ((prop "role" v ≡ prop "role" w) × (prop "ordinal" v ≡ prop "ordinal" w))
  pub in_order :
      (role : Text) (i : ℕ) (v : Value)
      → get_elem? (with_role role vs) i ≡ some v
      → prop "ordinal" v ≡ some (num (pos i))

-- The resources of an envelope that `validResources` accepts are at most 128, no two of them share
-- role and ordinal, and those of each role have the ordinals 0, 1, 2, … in the order of the list.
pub valid_resources-IsNumbered :
    (platform : Platform) (vs : Items)
    → valid_resources platform (some (array vs)) ≡ true
    → IsNumbered (items vs)
unfolding valid_resources
valid_resources-IsNumbered platform vs h =
    let each : valid_each platform [] (items vs) ≡ true = ground arith in
    let ordered : all (λ role. ordinals_from 0 (with_role role (items vs)))
          (distinct (map role_of (items vs)))
        ≡ true =
      ground arith in
    record {
      few = leb→le (length (items vs)) 128 (ground arith);
      apart = λ i j v w lt e f (p, q).
          identities_differ platform [] (items vs) i j each lt e f
            (rw (ap string_of p, ap string_of q));
      in_order = λ role i v e. ordinal-prop (items vs) role i ordered e;
    }
