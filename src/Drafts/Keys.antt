-- ===== src/Drafts/Keys.antt =====
-- Lists of distinct keys, and the keys of an object.
use retrom.Prelude.{
  suc, ◌≡◌, ◌<◌, refl, sym, ap, subst, ◌∙◌, Bool, true, false, ◌||◌, List, [], ◌∷◌, none, some,
  length, if◌then◌else◌, arith, Bool-cases, inl, inr,
}
use retrom.Text.{Text, same, same_sound, same_refl}
use retrom.Value.{Value, Fields, end, field, keys, own}

abbrev pub has : Text → List Text → Bool
has k [] = false
has k (j ∷ js) = same j k || has k js

abbrev pub Distinct : List Text → Type 0
Distinct [] = Unit
Distinct (k ∷ ks) = (has k ks ≡ false) × Distinct ks

remove : Text → List Text → List Text
remove i [] = []
remove i (j ∷ js) = if same j i then js else j ∷ remove i js

length-remove :
    (i : Text) (js : List Text) → has i js ≡ true → suc (length (remove i js)) ≡ length js
unfolding remove
length-remove i [] h = cc h
length-remove i (j ∷ js) h = elim (Bool-cases (same j i)) [
  | inl e ↦ rw e refl
  | inr e ↦ rw e (ap suc (length-remove i js (rw e at h)))
]

has-remove :
    (i k : Text) (js : List Text) → same i k ≡ false → has k js ≡ true → has k (remove i js) ≡ true
unfolding remove
has-remove i k [] e h = cc h
has-remove i k (j ∷ js) e h = elim (Bool-cases (same j i)) [
  | inl m ↦
      let other : same j k ≡ false = subst (λ x. same x k ≡ false) (sym (same_sound j i m)) e in
      rw m (rw other at h)
  | inr m ↦ elim (Bool-cases (same j k)) [
    | inl n ↦ rw (m, n) refl
    | inr n ↦ rw (m, n) (has-remove i k js e (rw n at h))
  ]
]

-- Distinct keys that are among some others, which have one key more, are fewer.
pub distinct-fewer :
    (k : Text) (ks js : List Text)
    → Distinct ks
    → ((j : Text) → has j ks ≡ true → has j js ≡ true)
    → has k ks ≡ false
    → has k js ≡ true
    → length ks < length js
distinct-fewer k [] [] d sub out found = cc found
distinct-fewer k [] (j ∷ js) d sub out found = omega arith
distinct-fewer k (i ∷ ks) js (fresh, d) sub out found =
    let known : has i js ≡ true = sub i (rw (same_refl i) refl) in
    let (differ, out') = or_false (same i k) (has k ks) out in
    let less =
      distinct-fewer k ks (remove i js) d (λ j h. has-remove i j js (apart j h) (later j h)) out'
        (has-remove i k js differ found) in
    omega (arith, length-remove i js known)
  where
    or_false : (a b : Bool) → (a || b) ≡ false → (a ≡ false) × (b ≡ false)
    or_false a b h = ground arith

    apart : (j : Text) → has j ks ≡ true → same i j ≡ false
    apart j h = elim (Bool-cases (same i j)) [
      | inl e ↦ cc (fresh, subst (λ x. has x ks ≡ true) (sym (same_sound i j e)) h)
      | inr e ↦ e
    ]

    or_right : (a b : Bool) → b ≡ true → (a || b) ≡ true
    or_right a b h = ground arith

    later : (j : Text) → has j ks ≡ true → has j js ≡ true
    later j h = sub j (or_right (same i j) (has j ks) h)

pub own-has : (k : Text) (fs : Fields) (v : Value) → own k fs ≡ some v → has k (keys fs) ≡ true
own-has k end v h = ground arith
own-has k (field j w fs) v h = elim (Bool-cases (same j k)) [
  | inl e ↦ rw e refl
  | inr e ↦ rw e (own-has k fs v (rw e at h))
]

pub has-own : (k : Text) (fs : Fields) → has k (keys fs) ≡ true → (v : Value) × (own k fs ≡ some v)
has-own k end h = cc h
has-own k (field j w fs) h = elim (Bool-cases (same j k)) [
  | inl e ↦ (w, rw e refl)
  | inr e ↦ let (v, at) = has-own k fs (rw e at h) in (v, rw e at)
]

pub own-none : (k : Text) (fs : Fields) → own k fs ≡ none → has k (keys fs) ≡ false
own-none k fs h = elim (Bool-cases (has k (keys fs))) [
  | inr e ↦ e
  | inl e ↦ let (v, at) = has-own k fs e in nothing v (sym h ∙ at)
]
  where
    nothing : (v : Value) → none ≡ some v → has k (keys fs) ≡ false
    nothing v p = ground arith
