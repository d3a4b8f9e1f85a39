-- ===== src/Startup/Leaves.antt =====
-- What a task of startup-task-model.ts leaves of another one.
use retrom.Prelude.{
  ◌≡◌, refl, ◌∙◌, true, false, not, ◌&&◌, ◌||◌, ◌⊎◌, inl, inr, [], ◌∷◌, ◌++◌, Option, none, some,
  Bool-cases,
}
use retrom.Text.{Text, same}
use retrom.Startup.Tasks.{Task, is_running, is_summary, valid_task, entry}
use retrom.Startup.{
  StartupTimeline, visible_summary, snapshot, received, receive_valid, receive_row, receive_summary,
  update_summary, conflicts, row_of, has_seen, same_task,
}
use retrom.Startup.Hidden.{row_of-shift_rows}
use retrom.Startup.Rows.{sorted-row_of, row_of-snoc, row_of-replace}
use retrom.Startup.Maps.{entry-set_entry_other, entry-delete_entry_other, has_seen-cons}

module _ (id : Text) where
  -- The id was that of a row or a summary once, and is that of none now.
  abbrev pub Gone : StartupTimeline → Type 0
  Gone s = (has_seen id s.seen ≡ true) × (row_of id s.rows ≡ none) × (entry id s.summaries ≡ none)

  -- The id is that of no row and, but for an id that is seen, of no summary; or it is seen, and that
  -- of no summary.
  abbrev pub Tracked : StartupTimeline → Type 0
  Tracked s =
      ((row_of id s.rows ≡ none) × ((entry id s.summaries ≡ none) ⊎ (has_seen id s.seen ≡ true)))
      ⊎ ((has_seen id s.seen ≡ true) × (entry id s.summaries ≡ none))

  -- What a change keeps that makes no row of the id, and no summary.
  abbrev pub Leaves : StartupTimeline → StartupTimeline → Type 0
  Leaves s t =
      (row_of id s.rows ≡ none → row_of id t.rows ≡ none)
      × (entry id t.summaries ≡ entry id s.summaries)
      × (has_seen id s.seen ≡ true → has_seen id t.seen ≡ true)

  pub Leaves-refl : (s : StartupTimeline) → Leaves s s
  Leaves-refl s = (λ h. h, refl, λ h. h)

  pub Leaves-Gone : (s t : StartupTimeline) → Leaves s t → Gone s → Gone t
  Leaves-Gone s t (rows, same_entry, seen) (a, b, c) = (seen a, rows b, same_entry ∙ c)

  pub Leaves-Tracked : (s t : StartupTimeline) → Leaves s t → Tracked s → Tracked t
  Leaves-Tracked s t (rows, same_entry, seen) (inl (r, inl e)) = inl (rows r, inl (same_entry ∙ e))
  Leaves-Tracked s t (rows, same_entry, seen) (inl (r, inr k)) = inl (rows r, inr (seen k))
  Leaves-Tracked s t (rows, same_entry, seen) (inr (k, e)) = inr (seen k, same_entry ∙ e)

  pub snapshot-Leaves : (s : StartupTimeline) → Leaves s (snapshot s).1
  unfolding snapshot
  snapshot-Leaves s =
      (λ h. row_of-shift_rows id _ _ s.hidden_active (sorted-row_of id s.rows h), refl, λ h. h)

  module _ (task : Task) (differ : same task.id id ≡ false) where
    append-Leaves :
        (s : StartupTimeline) → row_of id s.rows ≡ none → row_of id (s.rows ++ task ∷ []) ≡ none
    append-Leaves s h = row_of-snoc id s.rows task h differ

    update_summary-Leaves :
        (current : Task) (s : StartupTimeline) → Leaves s (update_summary current task s)
    update_summary-Leaves current s = elim (Bool-cases (not (same current.kind task.kind))) [
      | inl e ↦ rw e (Leaves-refl s)
      | inr e ↦ elim (Bool-cases (is_running task)) [
        | inl r ↦
            rw (e, r) (λ h. h, entry-set_entry_other id task.id task s.summaries differ, λ h. h)
        | inr r ↦ elim (Bool-cases (same_task task.id (visible_summary s.rows s.summaries))) [
          | inl v ↦
              rw (e, r, v)
                (append-Leaves s, entry-delete_entry_other id task.id s.summaries differ, λ h. h)
          | inr v ↦
              rw (e, r, v) (λ h. h, entry-delete_entry_other id task.id s.summaries differ, λ h. h)
        ]
      ]
    ]

    receive_summary-Leaves :
        (known : Option Task) (s : StartupTimeline) → Leaves s (receive_summary task known s)
    receive_summary-Leaves (some current) s = update_summary-Leaves current s
    receive_summary-Leaves none s =
        elim (Bool-cases (is_running task && not (has_seen task.id s.seen))) [
          | inl e ↦ rw e (
            λ h. h,
            entry-set_entry_other id task.id task s.summaries differ,
            has_seen-cons id task.id s.seen,
          )
          | inr e ↦ rw e (Leaves-refl s)
        ]

    receive_row-Leaves :
        (row : Option Task) (s : StartupTimeline) → Leaves s (receive_row task row s)
    receive_row-Leaves (some current) s =
        elim (Bool-cases (conflicts current task || not (is_running current))) [
          | inl e ↦ rw e (Leaves-refl s)
          | inr e ↦ rw e (row_of-replace id task s.rows, refl, λ h. h)
        ]
    receive_row-Leaves none s = elim (Bool-cases (is_summary task)) [
      | inl m ↦ rw m (receive_summary-Leaves (entry task.id s.summaries) s)
      | inr m ↦ elim (Bool-cases (is_running task && not (has_seen task.id s.seen))) [
        | inl e ↦ rw (m, e) (append-Leaves s, refl, has_seen-cons id task.id s.seen)
        | inr e ↦ rw (m, e) (Leaves-refl s)
      ]
    ]

  -- What a task does whose id is another one.
  pub received-Leaves :
      (task : Task) (s : StartupTimeline) → same task.id id ≡ false → Leaves s (received task s)
  received-Leaves task s differ = elim (Bool-cases (valid_task task)) [
    | inl e ↦ rw e (valid-Leaves (entry task.id s.hidden_active))
    | inr e ↦ rw e (Leaves-refl s)
  ]
    where
      valid-Leaves : (hidden : Option Task) → Leaves s (receive_valid task hidden s)
      valid-Leaves none = receive_row-Leaves task differ (row_of task.id s.rows) s
      valid-Leaves (some current) = elim (Bool-cases (conflicts current task || is_running task)) [
        | inl e ↦ rw e (Leaves-refl s)
        | inr e ↦ rw e (λ h. h, refl, λ h. h)
      ]
