-- ===== src/Drafts/Leaves.antt =====
-- The steps that lead to a leaf of a value lead to it in the other one too, when the identities of
-- the two are the same.
use retrom.Prelude.{
  ℕ, zero, suc, ◌≡◌, refl, sym, ap, subst, ◌∙◌, ◌↔◌, true, ◌&&◌, and-eq-true_iff, List, [], ◌∷◌,
  Option, none, some, length, ◌==◌, ==_iff, arith, Bool-cases, Option-cases, inl, inr,
}
use retrom.Text.{Text, same}
use retrom.Value.{
  Value, Items, Fields, null, bool, num, str, array, object, nil, cons, end, field, keys, own,
}
use retrom.Drafts.Identity.{same_identity, same_items, same_fields}
use retrom.Drafts.Keys.{Distinct, distinct-fewer, own-has, has-own, own-none}
use retrom.Drafts.Paths.{
  Step, index, key, item_at, step, follow, IsLeaf, null_leaf, bool_leaf, num_leaf, str_leaf,
  same_leaf, some_injective, on_items_sound, on_fields_sound, own-same, same_identity-follow,
}

-- The keys of each object in a value are distinct.
abbrev mutual
  pub DistinctKeys : Value → Type 0
  DistinctKeys null = Unit
  DistinctKeys (bool b) = Unit
  DistinctKeys (num n) = Unit
  DistinctKeys (str s) = Unit
  DistinctKeys (array vs) = DistinctItems vs
  DistinctKeys (object proto fs) = Distinct (keys fs) × DistinctFields fs

  pub DistinctItems : Items → Type 0
  DistinctItems nil = Unit
  DistinctItems (cons v vs) = DistinctKeys v × DistinctItems vs

  pub DistinctFields : Fields → Type 0
  DistinctFields end = Unit
  DistinctFields (field k v fs) = DistinctKeys v × DistinctFields fs

-- A part of the one value for a part of the other.
abbrev PartOf : Option Value → Value → Type 0
PartOf o x = (u : Value) × (o ≡ some u) × (same_identity u x ≡ true) × DistinctKeys u

item_at-back :
    (i : ℕ) (vs ws : Items) (x : Value)
    → DistinctItems vs
    → same_items vs ws ≡ true
    → item_at i ws ≡ some x
    → PartOf (item_at i vs) x
unfolding same_items
item_at-back i nil nil x d h e = ground arith
item_at-back i nil (cons w ws) x d h e = cc h
item_at-back i (cons v vs) nil x d h e = cc h
item_at-back zero (cons v vs) (cons w ws) x d h e = (
  v,
  refl,
  subst (λ y. same_identity v y ≡ true) (some_injective w x e) ((and-eq-true_iff _ _).0 h).0,
  d.0,
)
item_at-back (suc i) (cons v vs) (cons w ws) x d h e =
    item_at-back i vs ws x d.1 ((and-eq-true_iff _ _).0 h).1 e

own-DistinctKeys :
    (k : Text) (fs : Fields) (u : Value) → DistinctFields fs → own k fs ≡ some u → DistinctKeys u
own-DistinctKeys k end u d h = ground arith
own-DistinctKeys k (field j v fs) u d h = elim (Bool-cases (same j k)) [
  | inl e ↦ subst DistinctKeys (some_injective v u (rw e at h)) d.0
  | inr e ↦ own-DistinctKeys k fs u d.1 (rw e at h)
]

own-back :
    (k : Text) (fs ws : Fields) (x : Value)
    → Distinct (keys fs)
    → DistinctFields fs
    → length (keys fs) ≡ length (keys ws)
    → same_fields fs ws ≡ true
    → own k ws ≡ some x
    → PartOf (own k fs) x
own-back k fs ws x d parts count h e = elim (Option-cases (own k fs)) [
  | inr (u, at) ↦
      let (y, there, same_y) = own-same k fs ws u h at in
      (
        u,
        at,
        subst (λ z. same_identity u z ≡ true) (some_injective y x (sym there ∙ e)) same_y,
        own-DistinctKeys k fs u parts at,
      )
  | inl absent ↦
      let fewer =
        distinct-fewer k (keys fs) (keys ws) d
          (λ j k.
            let (u, at) = has-own j fs k in
            let (y, there, _) = own-same j fs ws u h at in own-has j ws y there)
          (own-none k fs absent) (own-has k ws x e) in
      absurd (omega arith)
]

-- There are no steps in a leaf.
no_step :
    (s : Step) (v w x : Value)
    → IsLeaf v
    → step s v ≡ none
    → same_identity v w ≡ true
    → step s w ≡ some x
    → ⊥
no_step s v w x leaf absent h e = nothing (sym absent ∙ ap (step s) (same_leaf v w leaf h) ∙ e)
  where
    nothing : none ≡ some x → ⊥
    nothing k = ground arith

nothing_there : (x : Value) → none ≡ some x → ⊥
nothing_there x k = ground arith

step-back :
    (s : Step) (v w x : Value)
    → DistinctKeys v
    → same_identity v w ≡ true
    → step s w ≡ some x
    → PartOf (step s v) x
unfolding same_identity
step-back (index i) (array vs) w x d h e =
    let (ws, at, k) = on_items_sound (same_items vs) w h in item_at-back i vs ws x d k (rw at at e)
step-back (key k) (object proto fs) w x d h e =
    let (proto', ws, at, same_parts) =
      on_fields_sound (λ ws. (length (keys fs) == length (keys ws)) && same_fields fs ws) w h in
    let (count, parts) = (and-eq-true_iff _ _).0 same_parts in
    own-back k fs ws x d.0 d.1 ((==_iff _ _).0 count) parts (rw at at e)
step-back (index i) null w x d h e = absurd (no_step (index i) null w x null_leaf refl h e)
step-back (index i) (bool b) w x d h e =
    absurd (no_step (index i) (bool b) w x (bool_leaf b) refl h e)
step-back (index i) (num n) w x d h e = absurd (no_step (index i) (num n) w x (num_leaf n) refl h e)
step-back (index i) (str s) w x d h e = absurd (no_step (index i) (str s) w x (str_leaf s) refl h e)
step-back (index i) (object proto fs) w x d h e =
    let (proto', ws, at, _) =
      on_fields_sound (λ ws. (length (keys fs) == length (keys ws)) && same_fields fs ws) w h in
    absurd (nothing_there x (rw at at e))
step-back (key k) null w x d h e = absurd (no_step (key k) null w x null_leaf refl h e)
step-back (key k) (bool b) w x d h e = absurd (no_step (key k) (bool b) w x (bool_leaf b) refl h e)
step-back (key k) (num n) w x d h e = absurd (no_step (key k) (num n) w x (num_leaf n) refl h e)
step-back (key k) (str s) w x d h e = absurd (no_step (key k) (str s) w x (str_leaf s) refl h e)
step-back (key k) (array vs) w x d h e =
    let (ws, at, _) = on_items_sound (same_items vs) w h in absurd (nothing_there x (rw at at e))

leaf_back : (v leaf : Value) → IsLeaf leaf → same_identity v leaf ≡ true → v ≡ leaf
unfolding same_identity
leaf_back null leaf l h = same_leaf null leaf null_leaf h
leaf_back (bool b) leaf l h = same_leaf (bool b) leaf (bool_leaf b) h
leaf_back (num n) leaf l h = same_leaf (num n) leaf (num_leaf n) h
leaf_back (str s) leaf l h = same_leaf (str s) leaf (str_leaf s) h
leaf_back (array vs) leaf null_leaf h = cc h
leaf_back (array vs) leaf (bool_leaf b) h = cc h
leaf_back (array vs) leaf (num_leaf n) h = cc h
leaf_back (array vs) leaf (str_leaf s) h = cc h
leaf_back (object proto fs) leaf null_leaf h = cc h
leaf_back (object proto fs) leaf (bool_leaf b) h = cc h
leaf_back (object proto fs) leaf (num_leaf n) h = cc h
leaf_back (object proto fs) leaf (str_leaf s) h = cc h

follow_back :
    (path : List Step) (v w leaf : Value)
    → IsLeaf leaf
    → DistinctKeys v
    → same_identity v w ≡ true
    → follow path w ≡ some leaf
    → follow path v ≡ some leaf
follow_back [] v w leaf l d h e =
    let at = some_injective w leaf e in
    ap some (leaf_back v leaf l (subst (λ x. same_identity v x ≡ true) at h))
follow_back (s ∷ ss) v w leaf l d h e = elim (Option-cases (step s w)) [
  | inl absent ↦ absurd (nothing_there leaf (rw absent at e))
  | inr (x, at) ↦
      let (u, there, same_x, d') = step-back s v w x d h at in
      rw there (follow_back ss u x leaf l d' same_x (rw at at e))
]

-- When a value, whose objects have distinct keys, has the identity of another, steps lead to a leaf
-- in the one exactly when they lead to that leaf in the other.
pub same_identity-follow_iff :
    (path : List Step) (v w leaf : Value)
    → IsLeaf leaf
    → DistinctKeys v
    → same_identity v w ≡ true
    → (follow path v ≡ some leaf) ↔ (follow path w ≡ some leaf)
same_identity-follow_iff path v w leaf l d h =
    (same_identity-follow path v w leaf l h, follow_back path v w leaf l d h)
