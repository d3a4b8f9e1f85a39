-- ===== src/Drafts/Paths.antt =====
-- What two values with the same identity agree on.
use retrom.Prelude.{
  ℕ, zero, suc, ◌≡◌, refl, sym, ap, subst, Bool, true, ◌&&◌, and-eq-true_iff, List, [], ◌∷◌, Option,
  none, some, length, ◌==◌, ℤ, arith, Bool-cases, Option-cases, inl, inr,
}
use retrom.Text.{Text, same, same_sound}
use retrom.Value.{
  Value, Items, Fields, null, bool, num, str, array, object, nil, cons, end, field, keys, own,
  Proto,
}
use retrom.Provider.Agreement.{strict_same_sound}
use retrom.Drafts.Identity.{on_items, on_fields, on_some, same_identity, same_items, same_fields}

-- A step into an array or an object.
pub data Step : Type 0 where
  index : ℕ → Step
  key : Text → Step

abbrev pub item_at : ℕ → Items → Option Value
item_at i nil = none
item_at zero (cons v vs) = some v
item_at (suc i) (cons v vs) = item_at i vs

abbrev pub step : Step → Value → Option Value
step (index i) (array vs) = item_at i vs
step (key k) (object proto fs) = own k fs
step s v = none

abbrev then_follow : (Value → Option Value) → Option Value → Option Value
then_follow f none = none
then_follow f (some v) = f v

-- The value that steps lead to.
abbrev pub follow : List Step → Value → Option Value
follow [] v = some v
follow (s ∷ ss) v = then_follow (follow ss) (step s v)

-- A value without parts.
pub data IsLeaf : Value → Type 0 where
  null_leaf : IsLeaf null
  bool_leaf : (b : Bool) → IsLeaf (bool b)
  num_leaf : (n : ℤ) → IsLeaf (num n)
  str_leaf : (s : Text) → IsLeaf (str s)

pub some_injective : (v w : Value) → some v ≡ some w → v ≡ w
some_injective v w h = cc h

pub same_leaf : (leaf w : Value) → IsLeaf leaf → same_identity leaf w ≡ true → leaf ≡ w
unfolding same_identity
same_leaf leaf w null_leaf h = some_injective leaf w (strict_same_sound (some null) (some w) h)
same_leaf leaf w (bool_leaf b) h =
    some_injective leaf w (strict_same_sound (some (bool b)) (some w) h)
same_leaf leaf w (num_leaf n) h =
    some_injective leaf w (strict_same_sound (some (num n)) (some w) h)
same_leaf leaf w (str_leaf s) h =
    some_injective leaf w (strict_same_sound (some (str s)) (some w) h)

pub on_items_sound :
    (p : Items → Bool) (w : Value)
    → on_items p w ≡ true
    → (ws : Items) × (w ≡ array ws) × (p ws ≡ true)
on_items_sound p (array ws) h = (ws, refl, h)
on_items_sound p null h = cc
on_items_sound p (bool b) h = cc
on_items_sound p (num n) h = cc
on_items_sound p (str s) h = cc
on_items_sound p (object proto ws) h = cc

pub on_fields_sound :
    (p : Fields → Bool) (w : Value)
    → on_fields p w ≡ true
    → (proto : Proto) × (ws : Fields) × (w ≡ object proto ws) × (p ws ≡ true)
on_fields_sound p (object proto ws) h = (proto, ws, refl, h)
on_fields_sound p null h = cc
on_fields_sound p (bool b) h = cc
on_fields_sound p (num n) h = cc
on_fields_sound p (str s) h = cc
on_fields_sound p (array ws) h = cc

-- A part of a value, and a part of another with the same identity.
abbrev pub SamePart : Value → Option Value → Type 0
SamePart u o = (x : Value) × (o ≡ some x) × (same_identity u x ≡ true)

item_at-same :
    (i : ℕ) (vs ws : Items) (u : Value)
    → same_items vs ws ≡ true
    → item_at i vs ≡ some u
    → SamePart u (item_at i ws)
unfolding same_items
item_at-same i nil ws u h e = ground arith
item_at-same i (cons v vs) nil u h e = cc
item_at-same zero (cons v vs) (cons w ws) u h e = (
  w,
  refl,
  subst (λ x. same_identity x w ≡ true) (some_injective v u e) ((and-eq-true_iff _ _).0 h).0,
)
item_at-same (suc i) (cons v vs) (cons w ws) u h e =
    item_at-same i vs ws u ((and-eq-true_iff _ _).0 h).1 e

on_some_sound : (u : Value) (o : Option Value) → on_some (same_identity u) o ≡ true → SamePart u o
on_some_sound u none h = cc
on_some_sound u (some w) h = (w, refl, h)

pub own-same :
    (k : Text) (fs ws : Fields) (u : Value)
    → same_fields fs ws ≡ true
    → own k fs ≡ some u
    → SamePart u (own k ws)
unfolding same_fields
own-same k end ws u h e = ground arith
own-same k (field j v fs) ws u h e =
    let (here, later) = (and-eq-true_iff _ _).0 h in
    elim (Bool-cases (same j k)) [
      | inl match ↦
          found (some_injective v u (rw match at e)) (same_sound j k match)
            (on_some_sound v (own j ws) here)
      | inr other ↦ own-same k fs ws u later (rw other at e)
    ]
  where
    found : v ≡ u → j ≡ k → SamePart v (own j ws) → SamePart u (own k ws)
    found a b (x, at, same_x) =
        (x, subst (λ i. own i ws ≡ some x) b at, subst (λ y. same_identity y x ≡ true) a same_x)

step-same :
    (s : Step) (v w u : Value)
    → same_identity v w ≡ true
    → step s v ≡ some u
    → SamePart u (step s w)
unfolding same_identity
step-same (index i) (array vs) w u h e =
    let (ws, at, k) = on_items_sound (same_items vs) w h in rw at (item_at-same i vs ws u k e)
step-same (key k) (object proto fs) w u h e =
    let (proto', ws, at, same_parts) =
      on_fields_sound (λ ws. (length (keys fs) == length (keys ws)) && same_fields fs ws) w h in
    rw at (own-same k fs ws u ((and-eq-true_iff _ _).0 same_parts).1 e)
step-same (index i) null w u h e = ground arith
step-same (index i) (bool b) w u h e = ground arith
step-same (index i) (num n) w u h e = ground arith
step-same (index i) (str s) w u h e = ground arith
step-same (index i) (object proto fs) w u h e = ground arith
step-same (key k) null w u h e = ground arith
step-same (key k) (bool b) w u h e = ground arith
step-same (key k) (num n) w u h e = ground arith
step-same (key k) (str s) w u h e = ground arith
step-same (key k) (array vs) w u h e = ground arith

-- When a value has the identity of another, steps that lead to a leaf of the one lead to the same
-- leaf in the other.
pub same_identity-follow :
    (path : List Step) (v w leaf : Value)
    → IsLeaf leaf
    → same_identity v w ≡ true
    → follow path v ≡ some leaf
    → follow path w ≡ some leaf
same_identity-follow [] v w leaf l h e =
    let at = some_injective v leaf e in
    ap some (sym (same_leaf leaf w l (subst (λ x. same_identity x w ≡ true) at h)))
same_identity-follow (s ∷ ss) v w leaf l h e = elim (Option-cases (step s v)) [
  | inl absent ↦ nothing (rw absent at e)
  | inr (u, at) ↦
      let (x, there, same_x) = step-same s v w u h at in
      rw there (same_identity-follow ss u x leaf l same_x (rw at at e))
]
  where
    nothing : none ≡ some leaf → follow (s ∷ ss) w ≡ some leaf
    nothing k = ground arith
