-- ===== src/Startup/Reached.antt =====
-- The timelines of startup-task-model.ts that are reached by receiving tasks.
use retrom.Prelude.{
  ◌≡◌, refl, not, ◌&&◌, ◌||◌, List, [], ◌∷◌, ◌++◌, Option, none, some, Bool-cases, inl, inr,
}
use retrom.Text.{same}
use retrom.Startup.Tasks.{Task, is_running, is_summary, valid_task, entry}
use retrom.Startup.{
  StartupTimeline, empty, finished, running, row_limit, visible_summary, snapshot, receive,
  received, receive_valid, receive_row, receive_summary, update_summary, conflicts, row_of,
  has_seen, same_task,
}
use retrom.Startup.Hidden.{Distinct, Apart, Apart-rows, Apart-delete_entry, shift_rows-Apart}
use retrom.Startup.Rows.{
  sorted-row_of, sorted-Distinct, Distinct-snoc, Apart-snoc, row_of-replace, Distinct-replace,
}

-- No two rows, and no row and hidden task, have an id in common.
abbrev pub Clean : StartupTimeline → Type 0
Clean s = Distinct s.rows × Apart s.rows s.hidden_active

snapshot-Clean : (s : StartupTimeline) → Clean s → Clean (snapshot s).1
unfolding snapshot
snapshot-Clean s (d, a) =
    shift_rows-Apart (row_limit (visible_summary (finished s.rows ++ running s.rows) s.summaries))
      (finished s.rows ++ running s.rows) s.hidden_active (sorted-Distinct s.rows d)
      (Apart-rows s.rows _ s.hidden_active (λ id. sorted-row_of id s.rows) a)

-- A task that is in no row and not hidden may be put in a row.
append-Clean :
    (task : Task) (s : StartupTimeline)
    → row_of task.id s.rows ≡ none
    → entry task.id s.hidden_active ≡ none
    → Clean s
    → Distinct (s.rows ++ task ∷ []) × Apart (s.rows ++ task ∷ []) s.hidden_active
append-Clean task s absent unhidden (d, a) =
    (Distinct-snoc s.rows task absent d, Apart-snoc s.rows task s.hidden_active unhidden a)

update_summary-Clean :
    (current task : Task) (s : StartupTimeline)
    → row_of task.id s.rows ≡ none
    → entry task.id s.hidden_active ≡ none
    → Clean s
    → Clean (update_summary current task s)
update_summary-Clean current task s absent unhidden c =
    elim (Bool-cases (not (same current.kind task.kind))) [
      | inl e ↦ rw e c
      | inr e ↦ elim (Bool-cases (is_running task)) [
        | inl r ↦ rw (e, r) c
        | inr r ↦ elim (Bool-cases (same_task task.id (visible_summary s.rows s.summaries))) [
          | inl v ↦ rw (e, r, v) (append-Clean task s absent unhidden c)
          | inr v ↦ rw (e, r, v) c
        ]
      ]
    ]

receive_summary-Clean :
    (task : Task) (known : Option Task) (s : StartupTimeline)
    → row_of task.id s.rows ≡ none
    → entry task.id s.hidden_active ≡ none
    → Clean s
    → Clean (receive_summary task known s)
receive_summary-Clean task (some current) s absent unhidden c =
    update_summary-Clean current task s absent unhidden c
receive_summary-Clean task none s absent unhidden c =
    elim (Bool-cases (is_running task && not (has_seen task.id s.seen))) [
      | inl e ↦ rw e c
      | inr e ↦ rw e c
    ]

receive_row-Clean :
    (task : Task) (row : Option Task) (s : StartupTimeline)
    → row_of task.id s.rows ≡ row
    → entry task.id s.hidden_active ≡ none
    → Clean s
    → Clean (receive_row task row s)
receive_row-Clean task (some current) s found unhidden (d, a) =
    elim (Bool-cases (conflicts current task || not (is_running current))) [
      | inl e ↦ rw e (d, a)
      | inr e ↦ rw e (
        Distinct-replace task s.rows d,
        Apart-rows s.rows _ s.hidden_active (λ id. row_of-replace id task s.rows) a,
      )
    ]
receive_row-Clean task none s absent unhidden c = elim (Bool-cases (is_summary task)) [
  | inl m ↦ rw m (receive_summary-Clean task (entry task.id s.summaries) s absent unhidden c)
  | inr m ↦ elim (Bool-cases (is_running task && not (has_seen task.id s.seen))) [
    | inl e ↦ rw (m, e) (append-Clean task s absent unhidden c)
    | inr e ↦ rw (m, e) c
  ]
]

receive_valid-Clean :
    (task : Task) (hidden : Option Task) (s : StartupTimeline)
    → entry task.id s.hidden_active ≡ hidden
    → Clean s
    → Clean (receive_valid task hidden s)
receive_valid-Clean task none s unhidden c =
    receive_row-Clean task (row_of task.id s.rows) s refl unhidden c
receive_valid-Clean task (some current) s found (d, a) =
    elim (Bool-cases (conflicts current task || is_running task)) [
      | inl e ↦ rw e (d, a)
      | inr e ↦ rw e (d, Apart-delete_entry s.rows task.id s.hidden_active a)
    ]

received-Clean : (task : Task) (s : StartupTimeline) → Clean s → Clean (received task s)
received-Clean task s c = elim (Bool-cases (valid_task task)) [
  | inl e ↦ rw e (receive_valid-Clean task (entry task.id s.hidden_active) s refl c)
  | inr e ↦ rw e c
]

-- The timeline behind the tasks, the last one first.
unfoldable pub run : List Task → StartupTimeline
unfolding receive
run [] = empty
run (task ∷ before) = (receive task (run before)).1

-- Behind whatever tasks a new timeline receives, no two of its rows have an id in common, and none
-- of its hidden tasks has the id of a row.
pub run-Clean : (tasks : List Task) → Clean (run tasks)
unfolding run receive
run-Clean [] = (tt, tt)
run-Clean (task ∷ before) =
    snapshot-Clean (received task (run before))
      (received-Clean task (run before) (run-Clean before))
