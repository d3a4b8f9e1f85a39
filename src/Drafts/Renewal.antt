-- ===== src/Drafts/Renewal.antt =====
-- web/features/player/draft-upload.ts: the upload of a draft, with a new run when its own has
-- expired. The texts of messages are left out.
use retrom.Prelude.{
  ℕ, Bool, true, false, not, List, [], ◌∷◌, ◌++◌, Option, none, some, if◌then◌else◌,
}
use retrom.Text.{Text, lit, same}
use retrom.Value.{Value}
use retrom.Envelope.Checks.{prop}
use retrom.Drafts.Identity.{same_identity}

pub data SaveKind : Type 0 where
  game_save checkpoint : SaveKind

pub record SaveCommitMetadata : Type 0 where
  pub commit_id : Text
  pub run_id : Text
  pub name : Text
  pub kind : SaveKind
  pub slot : Option ℕ
  pub version : Option ℕ
  pub extinfo : Value

-- `recovery_error` is whether the message of a mismatch is set.
pub record SaveDraft : Type 0 where
  pub id : Text
  pub user_id : Text
  pub game_id : Text
  pub game_title : Text
  pub created_at : ℕ
  pub metadata : SaveCommitMetadata
  pub save_id : Option Text
  pub payload : List ℕ
  pub screenshot : Option (List ℕ)
  pub checkpoint_metadata : Value
  pub recovery_error : Bool

-- A request of `commit`. One with a save replaces that (PUT), another makes a new one (POST).
pub record CommitRequest : Type 0 where
  pub path : Text
  pub replaces : Bool
  pub metadata : SaveCommitMetadata
  pub payload : List ℕ
  pub screenshot : Option (List ℕ)

-- `core_id` is `extinfo.coreId`, `none` where that is undefined.
pub record RunRequest : Type 0 where
  pub game_id : Text
  pub core_id : Option Value
  pub save_id : Option Text

pub record Renewed : Type 0 where
  pub id : Text
  pub extinfo : Value

-- An ApiError with its code, a DraftIdentityMismatch, or another exception; the last three are
-- those of save-drafts.ts.
pub data Error : Type 0 where
  api : Text → Error
  mismatch other : Error
  storage_failed other_account unreadable : Error

pub data Outcome (A : Type 0) : Type 0 where
  returned : A → Outcome A
  thrown : Error → Outcome A

-- What is foreign: the answers of the server.
pub record Server : Type 1 where
  pub Save : Type 0
  pub upload : CommitRequest → Outcome Save
  pub post_run : RunRequest → Outcome Renewed

pub data Event : Type 0 where
  committed : CommitRequest → Event
  run_opened run_closed : Text → Event

abbrev pub Log : Type 0
Log = List Event

abbrev pub save_path : Option Text → Text
save_path none = lit "/api/v1/saves"
save_path (some id) = lit "/api/v1/saves/" ++ id

abbrev pub is_some {ℓ} : {A : Type ℓ} → Option A → Bool
is_some none = false
is_some (some a) = true

-- The request of `commit`, for a run.
abbrev pub commit_request : SaveDraft → Text → CommitRequest
commit_request draft run = record {
  path = save_path draft.save_id;
  replaces = is_some draft.save_id;
  metadata = record draft.metadata { run_id = run };
  payload = draft.payload;
  screenshot = draft.screenshot;
}

abbrev pub run_request : SaveDraft → RunRequest
run_request draft = record {
  game_id = draft.game_id;
  core_id = prop "coreId" draft.metadata.extinfo;
  save_id = draft.save_id;
}

abbrev pub is_expired : Error → Bool
is_expired (api code) = same code (lit "CONTEXT_EXPIRED")
is_expired mismatch = false
is_expired other = false
is_expired storage_failed = false
is_expired other_account = false
is_expired unreadable = false

module _ (server : Server) where
  -- `commit`. The exception of a version conflict keeps its code.
  abbrev pub commit : SaveDraft → Text → Log → Outcome server.Save × Log
  commit draft run log =
      (server.upload (commit_request draft run), log ++ committed (commit_request draft run) ∷ [])

  -- `closeRenewal`, which does not throw.
  abbrev pub close_renewal : Text → Outcome server.Save × Log → Outcome server.Save × Log
  close_renewal run (outcome, log) = (outcome, log ++ run_closed run ∷ [])

  -- The `try` of the second commit.
  abbrev pub commit_renewed : SaveDraft → Renewed → Log → Outcome server.Save × Log
  commit_renewed draft renewed log =
      if not (same_identity draft.metadata.extinfo renewed.extinfo)
      then (thrown mismatch, log)
      else commit draft renewed.id log

  abbrev pub with_run : SaveDraft → Log → Outcome Renewed → Outcome server.Save × Log
  with_run draft log (thrown e) = (thrown e, log)
  with_run draft log (returned renewed) =
      close_renewal renewed.id (commit_renewed draft renewed (log ++ run_opened renewed.id ∷ []))

  -- What follows the first commit.
  abbrev pub renew : SaveDraft → Outcome server.Save × Log → Outcome server.Save × Log
  renew draft (returned save, log) = (returned save, log)
  renew draft (thrown e, log) =
      if is_expired e
      then with_run draft log (server.post_run (run_request draft))
      else (thrown e, log)

  -- `uploadWithRenewal`.
  unfoldable pub upload_with_renewal : SaveDraft → Outcome server.Save × Log
  unfolding same_identity
  upload_with_renewal draft = renew draft (commit draft draft.metadata.run_id [])
