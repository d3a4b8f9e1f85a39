-- ===== src/Startup/Visible.antt =====
-- What a timeline of startup-task-model.ts shows.
use retrom.Prelude.{
  ℕ, ◌≤◌, ◌≡◌, refl, true, false, List, [], ◌∷◌, ◌++◌, Option, none, some, ltb, Bool-cases, inl,
  inr, all, any, length, length-append, arith,
}
use retrom.Startup.Tasks.{Task, is_running, Entries}
use retrom.Startup.{
  StartupTimeline, finished, running, shift_rows, hide, snapshot, receive, visible_summary,
  with_summary, received, row_limit,
}

-- Finished tasks stand above running ones.
abbrev pub FinishedFirst : List Task → Type 0
FinishedFirst [] = Unit
FinishedFirst (t ∷ ts) = (is_running t ≡ true → all is_running ts ≡ true) × FinishedFirst ts

running-all : (ts : List Task) → all is_running (running ts) ≡ true
running-all [] = refl
running-all (t ∷ ts) = elim (Bool-cases (is_running t)) [
  | inl e ↦ rw (e, running-all ts, e) refl
  | inr e ↦ rw (e, running-all ts) refl
]

all_running-FinishedFirst : (ts : List Task) → all is_running ts ≡ true → FinishedFirst ts
all_running-FinishedFirst [] e = tt
all_running-FinishedFirst (t ∷ ts) e =
    let rest : all is_running ts ≡ true = ground arith in
    (λ _. rest, all_running-FinishedFirst ts rest)

finished-append_FinishedFirst :
    (ts us : List Task) → FinishedFirst us → FinishedFirst (finished ts ++ us)
finished-append_FinishedFirst [] us h = h
finished-append_FinishedFirst (t ∷ ts) us h = elim (Bool-cases (is_running t)) [
  | inl e ↦ rw e (finished-append_FinishedFirst ts us h)
  | inr e ↦ rw e (λ r. cc (r, e), finished-append_FinishedFirst ts us h)
]

sorted-FinishedFirst : (ts : List Task) → FinishedFirst (finished ts ++ running ts)
sorted-FinishedFirst ts =
    finished-append_FinishedFirst ts (running ts)
      (all_running-FinishedFirst (running ts) (running-all ts))

none_running-FinishedFirst :
    (ts : List Task) (t : Task) → any is_running ts ≡ false → FinishedFirst (ts ++ t ∷ [])
none_running-FinishedFirst [] t e = (λ _. refl, tt)
none_running-FinishedFirst (u ∷ ts) t e =
    (λ r. ground arith, none_running-FinishedFirst ts t (ground arith))

-- The rows that stay are the last ones, at most as many as the limit.
shift_rows-length :
    (limit : ℕ) (ts : List Task) (hidden : Entries) → length (shift_rows limit ts hidden).0 ≤ limit
unfolding shift_rows
shift_rows-length limit [] hidden = omega arith
shift_rows-length limit (t ∷ ts) hidden = elim (Bool-cases (ltb limit (length (t ∷ ts)))) [
  | inl e ↦ rw e (shift_rows-length limit ts (hide t hidden))
  | inr e ↦ rw e (ground arith)
]

shift_rows-FinishedFirst :
    (limit : ℕ) (ts : List Task) (hidden : Entries)
    → FinishedFirst ts
    → FinishedFirst (shift_rows limit ts hidden).0
unfolding shift_rows
shift_rows-FinishedFirst limit [] hidden h = tt
shift_rows-FinishedFirst limit (t ∷ ts) hidden h = elim (Bool-cases (ltb limit (length (t ∷ ts)))) [
  | inl e ↦ rw e (shift_rows-FinishedFirst limit ts (hide t hidden) h.1)
  | inr e ↦ rw e h
]

shift_rows-none_running :
    (limit : ℕ) (ts : List Task) (hidden : Entries)
    → any is_running ts ≡ false
    → any is_running (shift_rows limit ts hidden).0 ≡ false
unfolding shift_rows
shift_rows-none_running limit [] hidden h = refl
shift_rows-none_running limit (t ∷ ts) hidden h = elim (Bool-cases (ltb limit (length (t ∷ ts)))) [
  | inl e ↦ rw e (shift_rows-none_running limit ts (hide t hidden) (ground arith))
  | inr e ↦ rw e h
]

summary-IsVisible :
    (ts : List Task) (hidden : Entries) (summary : Option Task)
    → FinishedFirst ts
    → ((t : Task) → summary ≡ some t → any is_running ts ≡ false)
    → (length (with_summary (shift_rows (row_limit summary) ts hidden).0 summary) ≤ 3)
      × FinishedFirst (with_summary (shift_rows (row_limit summary) ts hidden).0 summary)
summary-IsVisible ts hidden none h k =
    (shift_rows-length 3 ts hidden, shift_rows-FinishedFirst 3 ts hidden h)
summary-IsVisible ts hidden (some t) h k =
    let bound = shift_rows-length 2 ts hidden in
    let total = length-append (shift_rows 2 ts hidden).0 (t ∷ []) in
    (
      omega (arith, bound, total),
      none_running-FinishedFirst _ t (shift_rows-none_running 2 ts hidden (k t refl)),
    )

visible_summary-none_running :
    (ts : List Task) (summaries : Entries) (t : Task)
    → visible_summary ts summaries ≡ some t
    → any is_running ts ≡ false
visible_summary-none_running ts summaries t e = elim (Bool-cases (any is_running ts)) [
  | inl r ↦ cc (rw r at e)
  | inr r ↦ r
]

snapshot-IsVisible :
    (s : StartupTimeline) → (length (snapshot s).0 ≤ 3) × FinishedFirst (snapshot s).0
unfolding snapshot
snapshot-IsVisible s =
    summary-IsVisible (finished s.rows ++ running s.rows) s.hidden_active
      (visible_summary (finished s.rows ++ running s.rows) s.summaries)
      (sorted-FinishedFirst s.rows)
      (visible_summary-none_running (finished s.rows ++ running s.rows) s.summaries)

-- Whatever task a timeline receives, and in whatever state it is, it shows three tasks at most, and
-- no finished task below a running one.
pub receive-IsVisible :
    (task : Task) (s : StartupTimeline)
    → (length (receive task s).0 ≤ 3) × FinishedFirst (receive task s).0
unfolding receive
receive-IsVisible task s = snapshot-IsVisible (received task s)
