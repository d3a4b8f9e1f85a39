-- ===== src/Envelope/Sorting.antt =====
-- `exactKeys` of envelope.ts accepts the expected keys in any order, and nothing else.
use retrom.Prelude.{
  ◌≡◌, refl, ◌∙◌, ◌↔◌, true, List, [], ◌∷◌, map, String, Bool-cases, inl, inr, arith,
  and-eq-true_iff,
}
use mathlib.Core.List.{Perm, Permᴰ}
use mathlib.Core.List.Perm
use mathlib.Core.Logic.{∥∥₁_elim}
use retrom.Text.{Text, lit, same_sound, same_refl, precedes}
use retrom.Text.Order.{precedes_trans, precedes_total, precedes_asym}
use retrom.Value.{Value}
use retrom.Envelope.Texts.{insert, sort, all_same, ascending}
use retrom.Envelope.Checks.{own_keys, exact_keys}

pub all_same_sound : (ss ts : List Text) → all_same ss ts ≡ true → ss ≡ ts
unfolding all_same
all_same_sound [] [] h = refl
all_same_sound (s ∷ ss) (t ∷ ts) h =
    let (here, later) = (and-eq-true_iff _ _).0 h in
    cc (same_sound s t here, all_same_sound ss ts later)
all_same_sound [] (t ∷ ts) h = cc
all_same_sound (s ∷ ss) [] h = cc

all_same_refl : (ss : List Text) → all_same ss ss ≡ true
unfolding all_same
all_same_refl [] = refl
all_same_refl (s ∷ ss) = rw (same_refl s, all_same_refl ss)

insert-perm : (k : Text) (ks : List Text) → Perm (insert k ks) (k ∷ ks)
unfolding insert
insert-perm k [] = Perm.refl (k ∷ [])
insert-perm k (j ∷ js) = elim (Bool-cases (precedes j k)) [
  | inl h ↦ rw h (Perm.trans (Perm.cons j (insert-perm k js)) (Perm.swap k j js))
  | inr h ↦ rw h (Perm.refl (k ∷ j ∷ js))
]

sort-perm : (ks : List Text) → Perm (sort ks) ks
unfolding sort
sort-perm [] = Perm.refl []
sort-perm (k ∷ ks) = Perm.trans (insert-perm k (sort ks)) (Perm.cons k (sort-perm ks))

insert_comm : (a b : Text) (l : List Text) → insert a (insert b l) ≡ insert b (insert a l)
unfolding insert
insert_comm a b [] = ground (arith, precedes_total a b, precedes_asym a b, precedes_asym b a)
insert_comm a b (c ∷ l) = ground (
  arith,
  insert_comm a b l,
  precedes_total a b,
  precedes_asym a b,
  precedes_asym b a,
  precedes_trans c a b,
  precedes_trans c b a,
)

sort_steps : {ks js : List Text} → Permᴰ ks js → sort ks ≡ sort js
unfolding sort
sort_steps Permᴰ.nil = refl
sort_steps (Permᴰ.cons e p) = cc (sort_steps p)
sort_steps (Permᴰ.swap {a} {b} {l} e f) = rw (← e, ← f) (insert_comm a b (sort l))
sort_steps (Permᴰ.trans p q) = sort_steps p ∙ sort_steps q

texts_set : IsSet (List Text)
texts_set = hlevel

sort_perm_eq : (ks js : List Text) → Perm ks js → sort ks ≡ sort js
sort_perm_eq ks js p = ∥∥₁_elim p (texts_set (sort ks) (sort js)) sort_steps

ascending-insert : (k : Text) (ks : List Text) → ascending (k ∷ ks) ≡ true → insert k ks ≡ k ∷ ks
unfolding insert ascending
ascending-insert k [] h = refl
ascending-insert k (j ∷ js) h = ground (arith, precedes_asym k j)

ascending-tail : (k : Text) (ks : List Text) → ascending (k ∷ ks) ≡ true → ascending ks ≡ true
unfolding ascending
ascending-tail k [] h = refl
ascending-tail k (j ∷ js) h = ground arith

sort_of_ascending : (ks : List Text) → ascending ks ≡ true → sort ks ≡ ks
unfolding sort
sort_of_ascending [] h = refl
sort_of_ascending (k ∷ ks) h =
    rw (sort_of_ascending ks (ascending-tail k ks h)) (ascending-insert k ks h)

-- An object passes `exactKeys` with a list of keys in ascending order exactly when its own keys are
-- those of the list, each once, in any order.
pub exact_keys_iff :
    (v : Value) (ks : List String)
    → ascending (map lit ks) ≡ true
    → (exact_keys v ks ≡ true) ↔ Perm (own_keys v) (map lit ks)
unfolding exact_keys
exact_keys_iff v ks h = (
  λ e.
      rw (← all_same_sound (sort (own_keys v)) (map lit ks) e) (Perm.symm (sort-perm (own_keys v))),
  λ p.
      rw (sort_perm_eq (own_keys v) (map lit ks) p ∙ sort_of_ascending (map lit ks) h)
        (all_same_refl (map lit ks)),
)
