-- ===== src/Startup/Gone.antt =====
-- A task that has left the rows of startup-task-model.ts does not come back.
use retrom.Prelude.{
  ◌≡◌, refl, sym, ◌∙◌, subst, Bool, true, false, not, ◌&&◌, ◌||◌, inl, inr, List, [], ◌∷◌, ◌++◌,
  Option, none, some, if◌then◌else◌, Bool-cases, Option-cases, arith,
}
use retrom.Text.{Text, same, same_sound}
use retrom.Startup.Tasks.{Task, is_running, is_summary, valid_task, entry, set_entry}
use retrom.Startup.{
  StartupTimeline, visible_summary, snapshot, receive, received, receive_valid, receive_row,
  update_summary, conflicts, row_of, has_seen, same_task,
}
use retrom.Startup.Rows.{row_of-replace}
use retrom.Startup.Maps.{entry-delete_entry, has_seen_self}
use retrom.Startup.Leaves.{
  Gone, Tracked, Leaves, Leaves-refl, Leaves-Gone, Leaves-Tracked, snapshot-Leaves, received-Leaves,
}
use retrom.Startup.Reached.{run}

-- What a task does to its own id.
module _ (task : Task) where
  absent_row-Gone : (s : StartupTimeline) → Gone task.id s → Gone task.id (receive_row task none s)
  absent_row-Gone s (seen, row, summary) = elim (Bool-cases (is_summary task)) [
    | inl m ↦ rw (m, summary, seen) (no_summary (is_running task))
    | inr m ↦ rw (m, seen) (no_row (is_running task))
  ]
    where
      no_summary :
          (b : Bool)
          → Gone task.id (
              if b && false
              then record s {
                seen = task.id ∷ s.seen;
                summaries = set_entry task.id task s.summaries;
              }
              else s)
      no_summary true = (seen, row, summary)
      no_summary false = (seen, row, summary)

      no_row :
          (b : Bool)
          → Gone task.id (
              if b && false
              then record s { seen = task.id ∷ s.seen; rows = s.rows ++ task ∷ [] }
              else s)
      no_row true = (seen, row, summary)
      no_row false = (seen, row, summary)

  -- A task that is hidden changes no row, and a row is replaced.
  hidden-Leaves :
      (current : Task) (s : StartupTimeline)
      → Leaves task.id s (receive_valid task (some current) s)
  hidden-Leaves current s = elim (Bool-cases (conflicts current task || is_running task)) [
    | inl e ↦ rw e (Leaves-refl task.id s)
    | inr e ↦ rw e (λ h. h, refl, λ h. h)
  ]

  replaced-Leaves :
      (current : Task) (s : StartupTimeline) → Leaves task.id s (receive_row task (some current) s)
  replaced-Leaves current s =
      elim (Bool-cases (conflicts current task || not (is_running current))) [
        | inl e ↦ rw e (Leaves-refl task.id s)
        | inr e ↦ rw e (row_of-replace task.id task s.rows, refl, λ h. h)
      ]

  received-Gone : (s : StartupTimeline) → Gone task.id s → Gone task.id (received task s)
  received-Gone s g = elim (Bool-cases (valid_task task)) [
    | inl e ↦ rw e (valid-Gone (entry task.id s.hidden_active))
    | inr e ↦ rw e g
  ]
    where
      valid-Gone : (hidden : Option Task) → Gone task.id (receive_valid task hidden s)
      valid-Gone (some current) =
          Leaves-Gone task.id s (receive_valid task (some current) s) (hidden-Leaves current s) g
      valid-Gone none = rw g.1 (absent_row-Gone s g)

  -- The summary of a task that is known is updated, or ends as a row or as nothing.
  update_summary-Tracked :
      (current : Task) (s : StartupTimeline)
      → row_of task.id s.rows ≡ none
      → has_seen task.id s.seen ≡ true
      → Tracked task.id (update_summary current task s)
  update_summary-Tracked current s row seen =
      elim (Bool-cases (not (same current.kind task.kind))) [
        | inl e ↦ rw e (inl (row, inr seen))
        | inr e ↦ elim (Bool-cases (is_running task)) [
          | inl r ↦ rw (e, r) (inl (row, inr seen))
          | inr r ↦ elim (Bool-cases (same_task task.id (visible_summary s.rows s.summaries))) [
            | inl v ↦ rw (e, r, v) (inr (seen, entry-delete_entry task.id s.summaries))
            | inr v ↦ rw (e, r, v) (inl (row, inr seen))
          ]
        ]
      ]

  known_summary-seen :
      (current : Task) (s : StartupTimeline)
      → entry task.id s.summaries ≡ some current
      → Tracked task.id s
      → has_seen task.id s.seen ≡ true
  known_summary-seen current s e (inl (row, inl absent)) = cc (e, absent)
  known_summary-seen current s e (inl (row, inr seen)) = seen
  known_summary-seen current s e (inr (seen, absent)) = seen

  unseen-no_summary :
      (s : StartupTimeline)
      → has_seen task.id s.seen ≡ false
      → Tracked task.id s
      → entry task.id s.summaries ≡ none
  unseen-no_summary s e (inl (row, inl absent)) = absent
  unseen-no_summary s e (inl (row, inr seen)) = cc (e, seen)
  unseen-no_summary s e (inr (seen, absent)) = absent

  is_new : (a b : Bool) → (a && not b) ≡ true → b ≡ false
  is_new a b h = ground arith

  absent_row-Tracked :
      (s : StartupTimeline)
      → row_of task.id s.rows ≡ none
      → Tracked task.id s
      → Tracked task.id (receive_row task none s)
  absent_row-Tracked s row k = elim (Bool-cases (is_summary task)) [
    | inl m ↦ elim (Option-cases (entry task.id s.summaries)) [
      | inr (current, e) ↦
          rw (m, e) (update_summary-Tracked current s row (known_summary-seen current s e k))
      | inl e ↦ elim (Bool-cases (is_running task && not (has_seen task.id s.seen))) [
        | inl n ↦ rw (m, e, n) (inl (row, inr (has_seen_self task.id s.seen)))
        | inr n ↦ rw (m, e, n) k
      ]
    ]
    | inr m ↦ elim (Bool-cases (is_running task && not (has_seen task.id s.seen))) [
      | inl n ↦ rw (m, n) (inr (has_seen_self task.id s.seen, unseen-no_summary s (is_new _ _ n) k))
      | inr n ↦ rw (m, n) k
    ]
  ]

  received-Tracked : (s : StartupTimeline) → Tracked task.id s → Tracked task.id (received task s)
  received-Tracked s k = elim (Bool-cases (valid_task task)) [
    | inl e ↦ rw e (valid-Tracked (entry task.id s.hidden_active))
    | inr e ↦ rw e k
  ]
    where
      valid-Tracked : (hidden : Option Task) → Tracked task.id (receive_valid task hidden s)
      valid-Tracked (some current) =
          Leaves-Tracked task.id s (receive_valid task (some current) s) (hidden-Leaves current s) k
      valid-Tracked none = elim (Option-cases (row_of task.id s.rows)) [
        | inl e ↦ rw e (absent_row-Tracked s e k)
        | inr (current, e) ↦ rw e (
            Leaves-Tracked task.id s (receive_row task (some current) s) (replaced-Leaves current s)
              k)
      ]

module _ (id : Text) where
  receive-Gone : (task : Task) (s : StartupTimeline) → Gone id s → Gone id (receive task s).1
  unfolding receive
  receive-Gone task s g =
      Leaves-Gone id (received task s) (snapshot (received task s)).1
        (snapshot-Leaves id (received task s))
        (elim (Bool-cases (same task.id id)) [
          | inl e ↦
              subst (λ k. Gone k (received task s)) (same_sound task.id id e)
                (received-Gone task s (subst (λ k. Gone k s) (sym (same_sound task.id id e)) g))
          | inr e ↦ Leaves-Gone id s (received task s) (received-Leaves id task s e) g
        ])

  receive-Tracked :
      (task : Task) (s : StartupTimeline) → Tracked id s → Tracked id (receive task s).1
  unfolding receive
  receive-Tracked task s k =
      Leaves-Tracked id (received task s) (snapshot (received task s)).1
        (snapshot-Leaves id (received task s))
        (elim (Bool-cases (same task.id id)) [
          | inl e ↦
              subst (λ k. Tracked k (received task s)) (same_sound task.id id e)
                (received-Tracked task s
                  (subst (λ k. Tracked k s) (sym (same_sound task.id id e)) k))
          | inr e ↦ Leaves-Tracked id s (received task s) (received-Leaves id task s e) k
        ])

  run-Tracked : (tasks : List Task) → Tracked id (run tasks)
  unfolding run
  run-Tracked [] = inl (refl, inl refl)
  run-Tracked (task ∷ before) = receive-Tracked task (run before) (run-Tracked before)

  run-Gone : (later before : List Task) → Gone id (run before) → Gone id (run (later ++ before))
  unfolding run
  run-Gone [] before g = g
  run-Gone (task ∷ later) before g =
      receive-Gone task (run (later ++ before)) (run-Gone later before g)

  -- A task changes the rows of an id that is that of a row, and nothing else of it.
  row-Leaves :
      (task t : Task) (s : StartupTimeline)
      → row_of id s.rows ≡ some t
      → Leaves id s (received task s)
  row-Leaves task t s row = elim (Bool-cases (same task.id id)) [
    | inr e ↦ received-Leaves id task s e
    | inl e ↦ elim (Bool-cases (valid_task task)) [
      | inr v ↦ rw v (Leaves-refl id s)
      | inl v ↦
          let p = same_sound task.id id e in
          rw v (
            subst (λ k. Leaves k s (receive_valid task (entry task.id s.hidden_active) s)) p
              (valid-Leaves (entry task.id s.hidden_active)
                (subst (λ k. row_of k s.rows ≡ some t) (sym p) row)))
    ]
  ]
    where
      valid-Leaves :
          (hidden : Option Task)
          → row_of task.id s.rows ≡ some t
          → Leaves task.id s (receive_valid task hidden s)
      valid-Leaves (some current) r = hidden-Leaves task current s
      valid-Leaves none r =
          subst (λ o. Leaves task.id s (receive_row task o s)) (sym r) (replaced-Leaves task t s)

  left-Gone :
      (task t : Task) (s : StartupTimeline)
      → row_of id s.rows ≡ some t
      → Tracked id s
      → row_of id (receive task s).1.rows ≡ none
      → Gone id (receive task s).1
  unfolding receive
  left-Gone task t s row (inl (absent, k)) left = cc (row, absent)
  left-Gone task t s row (inr (seen, summary)) left =
      let (_, summary', seen') = row-Leaves task t s row in
      let (_, summary2, seen2) = snapshot-Leaves id (received task s) in
      (seen2 (seen' seen), left, summary2 ∙ summary' ∙ summary)

  next-Gone :
      (t task : Task) (before : List Task)
      → row_of id (run before).rows ≡ some t
      → row_of id (run (task ∷ before)).rows ≡ none
      → Gone id (run (task ∷ before))
  unfolding run
  next-Gone t task before row left = left-Gone task t (run before) row (run-Tracked before) left

  -- When a task of a new timeline has been in a row, and an update has taken it from the rows, hidden
  -- or not, then no further tasks, whatever their states, bring one of its id back to the rows.
  pub run-StaysGone :
      (t task : Task) (before later : List Task)
      → row_of id (run before).rows ≡ some t
      → row_of id (run (task ∷ before)).rows ≡ none
      → row_of id (run (later ++ task ∷ before)).rows ≡ none
  run-StaysGone t task before later row left =
      (run-Gone later (task ∷ before) (next-Gone t task before row left)).1
