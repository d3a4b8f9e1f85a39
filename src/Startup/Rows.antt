-- ===== src/Startup/Rows.antt =====
-- What the changes of the rows of startup-task-model.ts keep.
use retrom.Prelude.{◌≡◌, refl, sym, subst, false, List, [], ◌∷◌, ◌++◌, none, Bool-cases, inl, inr}
use retrom.Text.{Text, same, same_sound, same_refl}
use retrom.Startup.Tasks.{Task, is_running, Entries, entry}
use retrom.Startup.{finished, running, row_of, replace_row}
use retrom.Startup.Hidden.{
  Distinct, Apart, row_of-append, row_of-finished, row_of-running, row_of-insert, row_of-tail,
}

same-comm_false : (a b : Text) → same a b ≡ false → same b a ≡ false
same-comm_false a b h = elim (Bool-cases (same b a)) [
  | inl e ↦ cc (same_refl b, rw (sym (same_sound b a e)) at h)
  | inr e ↦ e
]

head_not_same :
    (id : Text) (t : Task) (ts : List Task) → row_of id (t ∷ ts) ≡ none → same t.id id ≡ false
head_not_same id t ts h = elim (Bool-cases (same t.id id)) [ inl e ↦ cc (rw e at h) | inr e ↦ e ]

Distinct-insert :
    (t : Task) (ts us : List Task)
    → row_of t.id ts ≡ none
    → row_of t.id us ≡ none
    → Distinct (ts ++ us)
    → Distinct (ts ++ t ∷ us)
Distinct-insert t [] us h k d = (k, d)
Distinct-insert t (u ∷ ts) us h k (e, d) = (
  row_of-insert u.id t ts us (same-comm_false u.id t.id (head_not_same t.id u ts h)) e,
  Distinct-insert t ts us (row_of-tail t.id u ts h) k d,
)

pub sorted-row_of :
    (id : Text) (ts : List Task)
    → row_of id ts ≡ none
    → row_of id (finished ts ++ running ts) ≡ none
sorted-row_of id ts h =
    row_of-append id (finished ts) (running ts) (row_of-finished id ts h) (row_of-running id ts h)

pub sorted-Distinct : (ts : List Task) → Distinct ts → Distinct (finished ts ++ running ts)
sorted-Distinct [] d = tt
sorted-Distinct (t ∷ ts) (h, d) = elim (Bool-cases (is_running t)) [
  | inl r ↦ rw r (
      Distinct-insert t (finished ts) (running ts) (row_of-finished t.id ts h)
        (row_of-running t.id ts h) (sorted-Distinct ts d))
  | inr r ↦ rw r (sorted-row_of t.id ts h, sorted-Distinct ts d)
]

pub row_of-snoc :
    (id : Text) (ts : List Task) (t : Task)
    → row_of id ts ≡ none
    → same t.id id ≡ false
    → row_of id (ts ++ t ∷ []) ≡ none
row_of-snoc id ts t h e = row_of-append id ts (t ∷ []) h (rw e refl)

pub Distinct-snoc :
    (ts : List Task) (t : Task) → row_of t.id ts ≡ none → Distinct ts → Distinct (ts ++ t ∷ [])
Distinct-snoc [] t h d = (refl, tt)
Distinct-snoc (u ∷ ts) t h (e, d) = (
  row_of-snoc u.id ts t e (same-comm_false u.id t.id (head_not_same t.id u ts h)),
  Distinct-snoc ts t (row_of-tail t.id u ts h) d,
)

pub Apart-snoc :
    (ts : List Task) (t : Task) (es : Entries)
    → entry t.id es ≡ none
    → Apart ts es
    → Apart (ts ++ t ∷ []) es
Apart-snoc ts t [] h a = tt
Apart-snoc ts t ((k, u) ∷ es) h (e, a) = elim (Bool-cases (same k t.id)) [
  | inl x ↦ cc (rw x at h)
  | inr x ↦ (row_of-snoc k ts t e (same-comm_false k t.id x), Apart-snoc ts t es (rw x at h) a)
]

pub row_of-replace :
    (id : Text) (task : Task) (ts : List Task)
    → row_of id ts ≡ none
    → row_of id (replace_row task ts) ≡ none
row_of-replace id task [] h = refl
row_of-replace id task (t ∷ ts) h = elim (Bool-cases (same t.id task.id)) [
  | inl e ↦
      let same_id : same task.id id ≡ false =
        subst (λ x. same x id ≡ false) (same_sound t.id task.id e) (head_not_same id t ts h) in
      rw (e, same_id) (row_of-tail id t ts h)
  | inr e ↦ rw (e, head_not_same id t ts h) (row_of-replace id task ts (row_of-tail id t ts h))
]

pub Distinct-replace : (task : Task) (ts : List Task) → Distinct ts → Distinct (replace_row task ts)
Distinct-replace task [] d = tt
Distinct-replace task (t ∷ ts) (h, d) = elim (Bool-cases (same t.id task.id)) [
  | inl e ↦ rw e (subst (λ x. row_of x ts ≡ none) (same_sound t.id task.id e) h, d)
  | inr e ↦ rw e (row_of-replace t.id task ts h, Distinct-replace task ts d)
]
