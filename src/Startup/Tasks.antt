-- ===== src/Startup/Tasks.antt =====
-- web/features/player/startup-task-model.ts: the tasks, their test, and its maps.
use retrom.Prelude.{
  ℕ, Bool, true, false, ◌&&◌, List, [], ◌∷◌, Option, none, some, ltb, leb, String, if◌then◌else◌,
  length, any,
}
use retrom.Text.{Text, lit, same}

-- Counts of bytes. A count that is no natural number is not modelled.
pub record Progress : Type 0 where
  pub loaded_bytes : ℕ
  pub total_bytes : ℕ

-- `summary` is `none` where it is undefined, and `progress` where it is null.
pub record Task : Type 0 where
  pub id : Text
  pub kind : Text
  pub state : Text
  pub summary : Option Bool
  pub progress : Option Progress

-- The keys of `startupLabels`.
abbrev pub startup_kinds : List String
startup_kinds =
    "LAUNCH_CONFIG" ∷ "PROVIDER_MODULE" ∷ "ENVIRONMENT" ∷ "BIOS" ∷ "GAME_CONTENT" ∷ "DEPENDENCIES"
    ∷ "CORE_ASSETS" ∷ "CORE_INITIALIZATION" ∷ "CONTENT_MOUNT" ∷ "RESTORE_LOAD" ∷ "RESTORE_APPLY"
    ∷ "GAME_START" ∷ "PLAYER_SETUP" ∷ []

abbrev pub is_running : Task → Bool
is_running t = same t.state (lit "RUNNING")

-- `!!task.summary`.
abbrev pub truthy : Option Bool → Bool
truthy none = false
truthy (some b) = b

abbrev pub is_summary : Task → Bool
is_summary t = truthy t.summary

abbrev pub valid_progress : Option Progress → Bool
valid_progress none = true
valid_progress (some p) =
    leb p.loaded_bytes 0x1fffffffffffff
    && leb p.total_bytes 0x1fffffffffffff
    && ltb 0 p.total_bytes
    && leb p.loaded_bytes p.total_bytes

-- `validTask`.
unfoldable pub valid_task : Task → Bool
valid_task t =
    leb 1 (length t.id)
    && leb (length t.id) 128
    && any (λ k. same t.kind (lit k)) startup_kinds
    && any (λ k. same t.state (lit k)) ("RUNNING" ∷ "COMPLETED" ∷ "FAILED" ∷ [])
    && valid_progress t.progress

-- A `Map` from ids to tasks, in the order of insertion.
abbrev pub Entries : Type 0
Entries = List (Text × Task)

abbrev pub entry : Text → Entries → Option Task
entry id [] = none
entry id ((k, t) ∷ es) = if same k id then some t else entry id es

abbrev pub set_entry : Text → Task → Entries → Entries
set_entry id task [] = (id, task) ∷ []
set_entry id task ((k, t) ∷ es) =
    if same k id then (k, task) ∷ es else (k, t) ∷ set_entry id task es

abbrev pub delete_entry : Text → Entries → Entries
delete_entry id [] = []
delete_entry id ((k, t) ∷ es) =
    if same k id then delete_entry id es else (k, t) ∷ delete_entry id es

-- `[...map.values()].at(-1)`.
abbrev pub last_entry : Entries → Option Task
last_entry [] = none
last_entry ((k, t) ∷ []) = some t
last_entry (e ∷ f ∷ es) = last_entry (f ∷ es)
