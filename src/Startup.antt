-- ===== src/Startup.antt =====
-- web/features/player/startup-task-model.ts: the class StartupTimeline, which keeps the steps of a
-- start that the player shows.
pub mod Tasks
pub mod Visible
pub mod Hidden
pub mod Rows
pub mod Reached
pub mod Maps
pub mod Leaves
pub mod Gone
mod Tests
use retrom.Prelude.{
  ℕ, ◌+◌, Bool, true, false, not, ◌&&◌, ◌||◌, List, [], ◌∷◌, ◌++◌, Option, none, some, ltb,
  if◌then◌else◌, length, any, leb,
}
use retrom.Text.{Text, same}
use retrom.Startup.Tasks.{
  Task, is_running, is_summary, valid_task, Entries, entry, set_entry, delete_entry, last_entry,
}

pub record StartupTimeline : Type 0 where
  pub rows : List Task
  pub hidden_active : Entries
  pub summaries : Entries
  pub seen : List Text

abbrev pub empty : StartupTimeline
empty = record { rows = []; hidden_active = []; summaries = []; seen = [] }

-- `filter`, by the state of a task.
abbrev pub finished : List Task → List Task
finished [] = []
finished (t ∷ ts) = if is_running t then finished ts else t ∷ finished ts

abbrev pub running : List Task → List Task
running [] = []
running (t ∷ ts) = if is_running t then t ∷ running ts else running ts

-- `visibleSummary`.
abbrev pub visible_summary : List Task → Entries → Option Task
visible_summary rows summaries = if any is_running rows then none else last_entry summaries

abbrev pub hide : Task → Entries → Entries
hide t hidden = if is_running t then set_entry t.id t hidden else hidden

-- The loop of `snapshot`: the rows that stay, and the hidden tasks.
unfoldable pub shift_rows : ℕ → List Task → Entries → List Task × Entries
shift_rows limit [] hidden = ([], hidden)
shift_rows limit (t ∷ ts) hidden =
    let rest = shift_rows limit ts (hide t hidden) in
    if ltb limit (length (t ∷ ts)) then rest else (t ∷ ts, hidden)

abbrev pub row_limit : Option Task → ℕ
row_limit none = 3
row_limit (some t) = 2

abbrev pub with_summary : List Task → Option Task → List Task
with_summary rows none = rows
with_summary rows (some t) = rows ++ t ∷ []

-- `snapshot`: the tasks shown, and the timeline.
unfoldable pub snapshot : StartupTimeline → List Task × StartupTimeline
unfolding shift_rows
snapshot s =
    let sorted = finished s.rows ++ running s.rows in
    let summary = visible_summary sorted s.summaries in
    let (rows, hidden) = shift_rows (row_limit summary) sorted s.hidden_active in
    (with_summary rows summary, record s { rows = rows; hidden_active = hidden })

abbrev pub same_task : Text → Option Task → Bool
same_task id none = false
same_task id (some t) = same t.id id

-- `receiveSummary`, when the summary is known as `current`.
abbrev pub update_summary : Task → Task → StartupTimeline → StartupTimeline
update_summary current task s =
    if not (same current.kind task.kind)
    then s
    else if is_running task
    then record s { summaries = set_entry task.id task s.summaries }
    else record s {
      rows =
          if same_task task.id (visible_summary s.rows s.summaries)
          then s.rows ++ task ∷ []
          else s.rows;
      summaries = delete_entry task.id s.summaries;
    }

abbrev pub has_seen : Text → List Text → Bool
has_seen id seen = any (same id) seen

-- `receiveSummary`, with `this.summaries.get(task.id)`.
abbrev pub receive_summary : Task → Option Task → StartupTimeline → StartupTimeline
receive_summary task (some current) s = update_summary current task s
receive_summary task none s =
    if is_running task && not (has_seen task.id s.seen)
    then record s { seen = task.id ∷ s.seen; summaries = set_entry task.id task s.summaries }
    else s

-- A change of kind, or between a summary and a step.
abbrev pub conflicts : Task → Task → Bool
conflicts current task =
    not (same current.kind task.kind)
    || not (if is_summary current then is_summary task else not (is_summary task))

-- `receive` on a hidden task.
abbrev pub receive_hidden : Task → Task → StartupTimeline → StartupTimeline
receive_hidden current task s =
    if conflicts current task || is_running task
    then s
    else record s { hidden_active = delete_entry task.id s.hidden_active }

abbrev pub row_of : Text → List Task → Option Task
row_of id [] = none
row_of id (t ∷ ts) = if same t.id id then some t else row_of id ts

abbrev pub replace_row : Task → List Task → List Task
replace_row task [] = []
replace_row task (t ∷ ts) = if same t.id task.id then task ∷ ts else t ∷ replace_row task ts

-- `receive` on a task that is not hidden, with its row.
abbrev pub receive_row : Task → Option Task → StartupTimeline → StartupTimeline
receive_row task (some current) s =
    if conflicts current task || not (is_running current)
    then s
    else record s { rows = replace_row task s.rows }
receive_row task none s =
    if is_summary task
    then receive_summary task (entry task.id s.summaries) s
    else if is_running task && not (has_seen task.id s.seen)
    then record s { seen = task.id ∷ s.seen; rows = s.rows ++ task ∷ [] }
    else s

abbrev pub receive_valid : Task → Option Task → StartupTimeline → StartupTimeline
receive_valid task (some current) s = receive_hidden current task s
receive_valid task none s = receive_row task (row_of task.id s.rows) s

abbrev pub received : Task → StartupTimeline → StartupTimeline
received task s =
    if valid_task task then receive_valid task (entry task.id s.hidden_active) s else s

-- `receive`; every way through it ends with a snapshot.
unfoldable pub receive : Task → StartupTimeline → List Task × StartupTimeline
unfolding snapshot
receive task s = snapshot (received task s)

-- `tasks.filter(…).at(-1)`.
abbrev pub last_running : List Task → Option Task → Option Task
last_running [] found = found
last_running (t ∷ ts) found = last_running ts (if is_running t then some t else found)

-- `message`: the task that its label is taken from, and the timeline.
unfoldable pub message : StartupTimeline → Option Task × StartupTimeline
unfolding snapshot
message s = let (shown, s2) = snapshot s in (last_running shown (last_entry s2.hidden_active), s2)
