-- ===== src/Envelope/Ascending.antt =====
-- `sortedUnique` of envelope.ts.
use retrom.Prelude.{
  ◌≡◌, refl, ap, ◌↔◌, true, false, List, [], ◌∷◌, map, some, arith, length, All, inl, inr,
  Bool-cases, Option-cases,
}
use retrom.Text.{Text, same, precedes, same_sound}
use retrom.Text.Order.{precedes_irrefl, precedes_trans}
use retrom.Value.{Value, str}
use retrom.Envelope.Texts.{includes, distinct, ascending}
use retrom.Envelope.Checks.{strings, sorted_unique}

-- Each text precedes all that follow.
abbrev pub StrictlyAscending : List Text → Type 0
StrictlyAscending [] = Unit
StrictlyAscending (s ∷ ss) = All (λ t. precedes s t ≡ true) ss × StrictlyAscending ss

All-trans :
    (s t : Text) (ss : List Text)
    → precedes s t ≡ true
    → All (λ u. precedes t u ≡ true) ss
    → All (λ u. precedes s u ≡ true) ss
All-trans s t [] h k = tt
All-trans s t (u ∷ ss) h (k, ks) = (precedes_trans s t u h k, All-trans s t ss h ks)

ascending_sound : (ss : List Text) → ascending ss ≡ true → StrictlyAscending ss
unfolding ascending
ascending_sound [] h = tt
ascending_sound (s ∷ []) h = (tt, tt)
ascending_sound (s ∷ t ∷ ss) h =
    let later = ascending_sound (t ∷ ss) (ground arith) in
    let first : precedes s t ≡ true = ground arith in
    ((first, All-trans s t ss first later.0), later)

ascending_complete : (ss : List Text) → StrictlyAscending ss → ascending ss ≡ true
unfolding ascending
ascending_complete [] h = refl
ascending_complete (s ∷ []) h = refl
ascending_complete (s ∷ t ∷ ss) h = rw h.0.0 (ascending_complete (t ∷ ss) h.1)

precedes_not_same : (s t : Text) → precedes s t ≡ true → same t s ≡ false
precedes_not_same s t h = elim (Bool-cases (same t s)) [
  | inl e ↦ cc (rw (same_sound t s e) at h, precedes_irrefl s)
  | inr e ↦ e
]

not_includes :
    (s : Text) (ss : List Text) → All (λ t. precedes s t ≡ true) ss → includes ss s ≡ false
not_includes s [] h = refl
not_includes s (t ∷ ss) (h, hs) = rw (precedes_not_same s t h) (not_includes s ss hs)

distinct-ascending : (ss : List Text) → StrictlyAscending ss → distinct ss ≡ ss
unfolding distinct
distinct-ascending [] h = refl
distinct-ascending (s ∷ ss) (h, hs) =
    rw (not_includes s ss h) (ap (λ l. s ∷ l) (distinct-ascending ss hs))

strings_sound : (vs : List Value) (ss : List Text) → strings vs ≡ some ss → vs ≡ map str ss
strings_sound [] ss h = ground arith
strings_sound (str s ∷ vs) ss h = elim (Option-cases (strings vs)) [
  | inl e ↦ ground arith
  | inr (ts, e) ↦
      let k : s ∷ ts ≡ ss = ground arith in rw (← k) (ap (λ l. str s ∷ l) (strings_sound vs ts e))
]
strings_sound _ ss h = cc

strings-map : (ss : List Text) → strings (map str ss) ≡ some ss
strings-map [] = refl
strings-map (s ∷ ss) = rw (strings-map ss)

sorted_unique_sound :
    (vs : List Value)
    → sorted_unique vs ≡ true
    → (ss : List Text) × (vs ≡ map str ss) × StrictlyAscending ss
unfolding sorted_unique
sorted_unique_sound vs h = elim (Option-cases (strings vs)) [
  | inl e ↦ ground arith
  | inr (ss, e) ↦ (ss, strings_sound vs ss e, ascending_sound ss (ground arith))
]

sorted_unique_complete : (ss : List Text) → StrictlyAscending ss → sorted_unique (map str ss) ≡ true
unfolding sorted_unique
sorted_unique_complete ss h =
    let e = strings-map ss in
    let d = ap length (distinct-ascending ss h) in ground (arith, ascending_complete ss h)

-- `sortedUnique` accepts an array exactly when it holds strings alone and each of them precedes all
-- that follow it.
pub sorted_unique_iff :
    (vs : List Value)
    → (sorted_unique vs ≡ true) ↔ ((ss : List Text) × (vs ≡ map str ss) × StrictlyAscending ss)
sorted_unique_iff vs = (sorted_unique_sound vs, λ (ss, e, h). rw e (sorted_unique_complete ss h))
