-- ===== src/Startup/Tests.antt =====
-- The timeline of startup tasks on concrete input.
use retrom.Prelude.{◌≡◌, ◌≤◌, refl, List, map, [], ◌∷◌, none, some, length}
use retrom.Text.{Text, lit, same}
use retrom.Startup.Tasks.{Task, valid_task}
use retrom.Startup.{StartupTimeline, empty, shift_rows, snapshot, receive, row_of}
use retrom.Startup.Gone.{run-StaysGone}
use retrom.Startup.Reached.{Clean, run, run-Clean}
use retrom.Startup.Visible.{FinishedFirst, receive-IsVisible}

abbrev task_of : Text → Text → Task
task_of id state = record {
  id = id;
  kind = lit "BIOS";
  state = state;
  summary = none;
  progress = none;
}

-- Three running tasks.
abbrev three : StartupTimeline
three =
    (receive (task_of (lit "c") (lit "RUNNING"))
      (receive (task_of (lit "b") (lit "RUNNING"))
        (receive (task_of (lit "a") (lit "RUNNING")) empty).1).1).1

completed_first :
    map (λ t. t.id) (receive (task_of (lit "b") (lit "COMPLETED")) three).0
    ≡ lit "b" ∷ lit "a" ∷ lit "c" ∷ []
unfolding receive snapshot shift_rows valid_task same
completed_first = refl

receive-IsVisible_example :
    (length (receive (task_of (lit "d") (lit "RUNNING")) three).0 ≤ 3)
    × FinishedFirst (receive (task_of (lit "d") (lit "RUNNING")) three).0
receive-IsVisible_example = receive-IsVisible (task_of (lit "d") (lit "RUNNING")) three

abbrev four_tasks : List Task
four_tasks =
    task_of (lit "d") (lit "RUNNING")
    ∷ task_of (lit "c") (lit "RUNNING")
    ∷ task_of (lit "b") (lit "RUNNING")
    ∷ task_of (lit "a") (lit "RUNNING")
    ∷ []

-- The first of four running tasks is hidden, and its progress does not bring it back.
hidden_stays :
    (map (λ t. t.id) (run four_tasks).rows ≡ lit "b" ∷ lit "c" ∷ lit "d" ∷ [])
    × (map (λ t. t.id) (run (task_of (lit "a") (lit "RUNNING") ∷ four_tasks)).rows
        ≡ lit "b" ∷ lit "c" ∷ lit "d" ∷ [])
unfolding run receive snapshot shift_rows valid_task same
hidden_stays = (refl, refl)

run-Clean_example : Clean (run (task_of (lit "a") (lit "RUNNING") ∷ four_tasks))
run-Clean_example = run-Clean (task_of (lit "a") (lit "RUNNING") ∷ four_tasks)

abbrev three_tasks : List Task
three_tasks =
    task_of (lit "c") (lit "RUNNING")
    ∷ task_of (lit "b") (lit "RUNNING")
    ∷ task_of (lit "a") (lit "RUNNING")
    ∷ []

first_shown : row_of (lit "a") (run three_tasks).rows ≡ some (task_of (lit "a") (lit "RUNNING"))
unfolding run receive snapshot shift_rows valid_task same
first_shown = refl

first_left : row_of (lit "a") (run four_tasks).rows ≡ none
unfolding run receive snapshot shift_rows valid_task same
first_left = refl

-- The first task is hidden, ends, and is told to run again.
run-StaysGone_example :
    row_of
      (lit "a")
      (run
        (task_of (lit "a") (lit "RUNNING") ∷ task_of (lit "a") (lit "COMPLETED") ∷ four_tasks)).rows
    ≡ none
run-StaysGone_example =
    run-StaysGone (lit "a") (task_of (lit "a") (lit "RUNNING")) (task_of (lit "d") (lit "RUNNING"))
      three_tasks (task_of (lit "a") (lit "RUNNING") ∷ task_of (lit "a") (lit "COMPLETED") ∷ [])
      first_shown first_left
