-- ===== src/Startup/Hidden.antt =====
-- The hidden tasks of a timeline of startup-task-model.ts.
use retrom.Prelude.{
  ℕ, ◌≡◌, refl, false, List, [], ◌∷◌, ◌++◌, none, ltb, Bool-cases, inl, inr, length,
}
use retrom.Text.{Text, same}
use retrom.Startup.Tasks.{Task, is_running, Entries, set_entry, delete_entry}
use retrom.Startup.{finished, running, shift_rows, hide, row_of}

-- No two rows have an id in common.
abbrev pub Distinct : List Task → Type 0
Distinct [] = Unit
Distinct (t ∷ ts) = (row_of t.id ts ≡ none) × Distinct ts

-- No hidden task has the id of a row.
abbrev pub Apart : List Task → Entries → Type 0
Apart rows [] = Unit
Apart rows ((k, t) ∷ es) = (row_of k rows ≡ none) × Apart rows es

pub row_of-append :
    (id : Text) (ts us : List Task)
    → row_of id ts ≡ none
    → row_of id us ≡ none
    → row_of id (ts ++ us) ≡ none
row_of-append id [] us h k = k
row_of-append id (t ∷ ts) us h k = elim (Bool-cases (same t.id id)) [
  | inl e ↦ cc (rw e at h)
  | inr e ↦ rw e (row_of-append id ts us (rw e at h) k)
]

pub row_of-finished :
    (id : Text) (ts : List Task) → row_of id ts ≡ none → row_of id (finished ts) ≡ none
row_of-finished id [] h = refl
row_of-finished id (t ∷ ts) h = elim (Bool-cases (same t.id id)) [
  | inl e ↦ cc (rw e at h)
  | inr e ↦ elim (Bool-cases (is_running t)) [
    | inl r ↦ rw r (row_of-finished id ts (rw e at h))
    | inr r ↦ rw (r, e) (row_of-finished id ts (rw e at h))
  ]
]

pub row_of-running :
    (id : Text) (ts : List Task) → row_of id ts ≡ none → row_of id (running ts) ≡ none
row_of-running id [] h = refl
row_of-running id (t ∷ ts) h = elim (Bool-cases (same t.id id)) [
  | inl e ↦ cc (rw e at h)
  | inr e ↦ elim (Bool-cases (is_running t)) [
    | inl r ↦ rw (r, e) (row_of-running id ts (rw e at h))
    | inr r ↦ rw r (row_of-running id ts (rw e at h))
  ]
]

pub row_of-insert :
    (id : Text) (t : Task) (ts us : List Task)
    → same t.id id ≡ false
    → row_of id (ts ++ us) ≡ none
    → row_of id (ts ++ t ∷ us) ≡ none
row_of-insert id t [] us e h = rw e h
row_of-insert id t (u ∷ ts) us e h = elim (Bool-cases (same u.id id)) [
  | inl x ↦ cc (rw x at h)
  | inr x ↦ rw x (row_of-insert id t ts us e (rw x at h))
]

pub Apart-rows :
    (rows rows2 : List Task) (es : Entries)
    → ((id : Text) → row_of id rows ≡ none → row_of id rows2 ≡ none)
    → Apart rows es
    → Apart rows2 es
Apart-rows rows rows2 [] f h = tt
Apart-rows rows rows2 ((k, t) ∷ es) f (h, hs) = (f k h, Apart-rows rows rows2 es f hs)

Apart-set_entry :
    (rows : List Task) (t : Task) (id : Text) (es : Entries)
    → row_of id rows ≡ none
    → Apart rows es
    → Apart rows (set_entry id t es)
Apart-set_entry rows t id [] e h = (e, tt)
Apart-set_entry rows t id ((k, u) ∷ es) e (h, hs) = elim (Bool-cases (same k id)) [
  | inl x ↦ rw x (h, hs)
  | inr x ↦ rw x (h, Apart-set_entry rows t id es e hs)
]

pub Apart-delete_entry :
    (rows : List Task) (id : Text) (es : Entries) → Apart rows es → Apart rows (delete_entry id es)
Apart-delete_entry rows id [] h = tt
Apart-delete_entry rows id ((k, u) ∷ es) (h, hs) = elim (Bool-cases (same k id)) [
  | inl x ↦ rw x (Apart-delete_entry rows id es hs)
  | inr x ↦ rw x (h, Apart-delete_entry rows id es hs)
]

pub row_of-tail :
    (id : Text) (t : Task) (ts : List Task) → row_of id (t ∷ ts) ≡ none → row_of id ts ≡ none
row_of-tail id t ts h = elim (Bool-cases (same t.id id)) [
  | inl e ↦ cc (rw e at h)
  | inr e ↦ rw e at h
]

hide-Apart :
    (t : Task) (ts : List Task) (es : Entries)
    → row_of t.id ts ≡ none
    → Apart (t ∷ ts) es
    → Apart ts (hide t es)
hide-Apart t ts es e h =
    let rest = Apart-rows (t ∷ ts) ts es (λ id. row_of-tail id t ts) h in
    elim (Bool-cases (is_running t)) [
      | inl r ↦ rw r (Apart-set_entry ts t t.id es e rest)
      | inr r ↦ rw r rest
    ]

pub shift_rows-Apart :
    (limit : ℕ) (ts : List Task) (es : Entries)
    → Distinct ts
    → Apart ts es
    → Distinct (shift_rows limit ts es).0
      × Apart (shift_rows limit ts es).0 (shift_rows limit ts es).1
unfolding shift_rows
shift_rows-Apart limit [] es d h = (tt, h)
shift_rows-Apart limit (t ∷ ts) es d h = elim (Bool-cases (ltb limit (length (t ∷ ts)))) [
  | inl e ↦ rw e (shift_rows-Apart limit ts (hide t es) d.1 (hide-Apart t ts es d.0 h))
  | inr e ↦ rw e (d, h)
]

pub row_of-shift_rows :
    (id : Text) (limit : ℕ) (ts : List Task) (es : Entries)
    → row_of id ts ≡ none
    → row_of id (shift_rows limit ts es).0 ≡ none
unfolding shift_rows
row_of-shift_rows id limit [] es h = refl
row_of-shift_rows id limit (t ∷ ts) es h = elim (Bool-cases (ltb limit (length (t ∷ ts)))) [
  | inl e ↦ rw e (row_of-shift_rows id limit ts (hide t es) (row_of-tail id t ts h))
  | inr e ↦ rw e h
]
