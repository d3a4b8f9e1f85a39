-- ===== src/Startup/Maps.antt =====
-- The maps of startup-task-model.ts behind a change.
use retrom.Prelude.{
  ◌≡◌, refl, sym, subst, true, false, ◌||◌, List, [], ◌∷◌, none, Bool, Bool-cases, inl, inr, arith,
}
use retrom.Text.{Text, same, same_sound, same_refl}
use retrom.Startup.Tasks.{Task, Entries, entry, set_entry, delete_entry}
use retrom.Startup.{has_seen}

-- Two keys are not both the same as a third.
other_key : (a b c : Text) → same a b ≡ false → same c a ≡ true → same c b ≡ false
other_key a b c differ h = subst (λ x. same x b ≡ false) (sym (same_sound c a h)) differ

pub entry-set_entry_other :
    (id k : Text) (t : Task) (es : Entries)
    → same k id ≡ false
    → entry id (set_entry k t es) ≡ entry id es
entry-set_entry_other id k t [] e = rw e refl
entry-set_entry_other id k t ((j, u) ∷ es) e = elim (Bool-cases (same j k)) [
  | inl x ↦ rw (x, other_key k id j e x) refl
  | inr x ↦ elim (Bool-cases (same j id)) [
    | inl y ↦ rw (x, y) refl
    | inr y ↦ rw (x, y) (entry-set_entry_other id k t es e)
  ]
]

pub entry-delete_entry_other :
    (id k : Text) (es : Entries) → same k id ≡ false → entry id (delete_entry k es) ≡ entry id es
entry-delete_entry_other id k [] e = refl
entry-delete_entry_other id k ((j, u) ∷ es) e = elim (Bool-cases (same j k)) [
  | inl x ↦ rw (x, other_key k id j e x) (entry-delete_entry_other id k es e)
  | inr x ↦ elim (Bool-cases (same j id)) [
    | inl y ↦ rw (x, y) refl
    | inr y ↦ rw (x, y) (entry-delete_entry_other id k es e)
  ]
]

pub entry-delete_entry : (id : Text) (es : Entries) → entry id (delete_entry id es) ≡ none
entry-delete_entry id [] = refl
entry-delete_entry id ((j, u) ∷ es) = elim (Bool-cases (same j id)) [
  | inl x ↦ rw x (entry-delete_entry id es)
  | inr x ↦ rw (x, x) (entry-delete_entry id es)
]

or_right : (a b : Bool) → b ≡ true → (a || b) ≡ true
or_right a b h = ground arith

pub has_seen-cons :
    (id x : Text) (seen : List Text) → has_seen id seen ≡ true → has_seen id (x ∷ seen) ≡ true
has_seen-cons id x seen h = or_right (same id x) (has_seen id seen) h

pub has_seen_self : (id : Text) (seen : List Text) → has_seen id (id ∷ seen) ≡ true
has_seen_self id seen = rw (same_refl id) refl
