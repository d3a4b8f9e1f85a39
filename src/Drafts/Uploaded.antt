-- ===== src/Drafts/Uploaded.antt =====
-- What `uploadWithRenewal` and `uploadDraft` do with a draft.
use retrom.Prelude.{
  ◌≡◌, refl, Bool, true, false, ◌⊎◌, inl, inr, List, [], ◌∷◌, ◌++◌, Option, none, some, Bool-cases,
}
use retrom.Text.{Text, lit, same}
use retrom.Envelope.Checks.{prop}
use retrom.Drafts.Identity.{same_identity}
use retrom.Drafts.Renewal.{
  SaveDraft, Renewed, CommitRequest, RunRequest, is_some, save_path, Error, api, mismatch, other,
  storage_failed, other_account, unreadable, Outcome, returned, thrown, Server, committed,
  run_opened, run_closed, Log, commit_request, run_request, is_expired, close_renewal,
  commit_renewed, with_run, renew, upload_with_renewal,
}
use retrom.Drafts.Store.{
  Storage, find_draft, put_draft, remove_draft, after_remove, after_keep, after_upload,
  upload_draft,
}
use retrom.Drafts.Others.{
  SameOthers, SameOthers-of_eq, put_draft-SameOthers, remove_draft-SameOthers,
}
use retrom.Drafts.Kept.{IsPut, put_draft-IsPut, IsRemoved, remove_draft-IsRemoved}

-- The runs that are opened.
abbrev pub opened : Log → List Text
opened [] = []
opened (run_opened run ∷ log) = run ∷ opened log
opened (run_closed run ∷ log) = opened log
opened (committed request ∷ log) = opened log

-- No run is opened, or one is, and it is closed last.
abbrev pub ClosesRuns : Log → Type 0
ClosesRuns log =
    (opened log ≡ [])
    ⊎ ((run : Text) × (before : Log) × (opened log ≡ run ∷ [])
        × (log ≡ before ++ run_closed run ∷ []))

-- Where a draft with a save, if it has one, is sent, and whether it replaces that.
abbrev pub Addressed : Option Text → Bool → Text → Type 0
Addressed none replaces path = (replaces ≡ false) × (path ≡ lit "/api/v1/saves")
Addressed (some id) replaces path = (replaces ≡ true) × (path ≡ lit "/api/v1/saves/" ++ id)

addressed : (o : Option Text) → Addressed o (is_some o) (save_path o)
addressed none = (refl, refl)
addressed (some id) = (refl, refl)

module _ (server : Server) (draft : SaveDraft) where
  -- A request for a new run of the draft's game, with its core and its save.
  abbrev pub AsksRun : RunRequest → Type 0
  AsksRun request =
      (request.game_id ≡ draft.game_id)
      × (request.core_id ≡ prop "coreId" draft.metadata.extinfo)
      × (request.save_id ≡ draft.save_id)

  -- A run with which a draft may be committed: its own, or a new one of the same identity.
  abbrev pub MayCommit : Text → Type 0
  MayCommit run =
      (run ≡ draft.metadata.run_id)
      ⊎ ((renewed : Renewed) × (asked : RunRequest) × AsksRun asked
          × (server.post_run asked ≡ returned renewed)
          × (same_identity draft.metadata.extinfo renewed.extinfo ≡ true)
          × (run ≡ renewed.id))

  -- A request that commits the draft, with a run with which it may be committed: all of the draft as
  -- it is but for the run, to its save if it has one.
  abbrev pub IsCommit : CommitRequest → Type 0
  IsCommit request =
      (run : Text) × MayCommit run
      × (request.metadata ≡ record draft.metadata { run_id = run })
      × (request.payload ≡ draft.payload)
      × (request.screenshot ≡ draft.screenshot)
      × Addressed draft.save_id request.replaces request.path

  commit_request-IsCommit : (run : Text) → MayCommit run → IsCommit (commit_request draft run)
  commit_request-IsCommit run may = (run, may, refl, refl, refl, addressed draft.save_id)

  -- The server has answered a commit of the draft by a save.
  abbrev pub IsAccepted : server.Save → Type 0
  IsAccepted save =
      (request : CommitRequest) × IsCommit request × (server.upload request ≡ returned save)

  -- Each commit that is sent is one of the draft.
  abbrev pub CommitsDraft : Log → Type 0
  CommitsDraft [] = Unit
  CommitsDraft (run_opened run ∷ log) = CommitsDraft log
  CommitsDraft (run_closed run ∷ log) = CommitsDraft log
  CommitsDraft (committed request ∷ log) = IsCommit request × CommitsDraft log

  abbrev pub HasTried : Outcome server.Save × Log → Type 0
  HasTried (returned save, log) = IsAccepted save × ClosesRuns log × CommitsDraft log
  HasTried (thrown e, log) = ClosesRuns log × CommitsDraft log

  -- A commit of the draft behind some events.
  commit-HasTried :
      (run : Text) (log : Log) (o : Outcome server.Save)
      → MayCommit run
      → server.upload (commit_request draft run) ≡ o
      → ClosesRuns log
      → CommitsDraft log
      → HasTried (o, log)
  commit-HasTried run log (returned save) may e closes commits =
      ((commit_request draft run, commit_request-IsCommit run may, e), closes, commits)
  commit-HasTried run log (thrown e') may e closes commits = (closes, commits)

  renewed-HasTried :
      (renewed : Renewed) (request : CommitRequest)
      → IsCommit request
      → server.post_run (run_request draft) ≡ returned renewed
      → HasTried (
          close_renewal server renewed.id
            (commit_renewed server draft renewed (committed request ∷ run_opened renewed.id ∷ [])))
  renewed-HasTried renewed request own e =
      elim (Bool-cases (same_identity draft.metadata.extinfo renewed.extinfo)) [
        | inl h ↦
            let may : MayCommit renewed.id =
              inr (renewed, run_request draft, (refl, refl, refl), e, h, refl) in
            let before : Log =
              committed request
              ∷ run_opened renewed.id
              ∷ committed (commit_request draft renewed.id)
              ∷ [] in
            rw h (
              commit-HasTried renewed.id (before ++ run_closed renewed.id ∷ [])
                (server.upload (commit_request draft renewed.id)) may refl
                (inr (renewed.id, before, refl, refl))
                (own, (commit_request-IsCommit renewed.id may, tt)))
        | inr h ↦ rw h (
          inr (renewed.id, committed request ∷ run_opened renewed.id ∷ [], refl, refl),
          (own, tt),
        )
      ]

  with_run-HasTried :
      (request : CommitRequest) (o : Outcome Renewed)
      → IsCommit request
      → server.post_run (run_request draft) ≡ o
      → HasTried (with_run server draft (committed request ∷ []) o)
  with_run-HasTried request (thrown e') own e = (inl refl, (own, tt))
  with_run-HasTried request (returned renewed) own e = renewed-HasTried renewed request own e

  renew-HasTried :
      (request : CommitRequest) (o : Outcome server.Save)
      → IsCommit request
      → server.upload (commit_request draft draft.metadata.run_id) ≡ o
      → HasTried (renew server draft (o, committed request ∷ []))
  renew-HasTried request (returned save) own e = (
    (
      commit_request draft draft.metadata.run_id,
      commit_request-IsCommit draft.metadata.run_id (inl refl),
      e,
    ),
    inl refl,
    (own, tt),
  )
  renew-HasTried request (thrown e') own e = elim (Bool-cases (is_expired e')) [
    | inl h ↦ rw h (with_run-HasTried request (server.post_run (run_request draft)) own refl)
    | inr h ↦ rw h (inl refl, (own, tt))
  ]

  -- Whatever the outcome, each commit that is sent is one of the draft, its metadata, payload and
  -- screenshot as they are but for the run, to its save if it has one; the run is the draft's own or
  -- a new one, asked for with the draft's game, core and save, whose identity is that of the draft. A
  -- run that is opened is the only one, and it is closed last. A save is returned only if it is the
  -- answer to such a commit.
  pub upload_with_renewal-HasTried : HasTried (upload_with_renewal server draft)
  unfolding upload_with_renewal
  upload_with_renewal-HasTried =
      renew-HasTried (commit_request draft draft.metadata.run_id)
        (server.upload (commit_request draft draft.metadata.run_id))
        (commit_request-IsCommit draft.metadata.run_id (inl refl)) refl

  -- The draft, marked as one whose identity has changed.
  abbrev pub marked : SaveDraft
  marked = record draft { recovery_error = true }

  -- What an exception leaves of the draft: what there was, or the marked draft, in the database or,
  -- when that fails, in the memory.
  abbrev pub IsLeft : Storage → Error → Storage → Type 0
  IsLeft s e t =
      ((t.stored ≡ s.stored) × (t.volatile ≡ s.volatile))
      ⊎ ((e ≡ mismatch) × (find_draft draft.id t.stored ≡ some marked))
      ⊎ ((e ≡ storage_failed) × (find_draft draft.id t.volatile ≡ some marked))

  abbrev pub IsUploaded : Storage → Outcome server.Save × Storage → Type 0
  IsUploaded s (returned save, t) =
      IsAccepted save
      × (find_draft draft.id t.stored ≡ none)
      × (find_draft draft.id t.volatile ≡ none)
      × SameOthers draft.id s t
  IsUploaded s (thrown e, t) = IsLeft s e t × SameOthers draft.id s t

  unchanged-IsUploaded : (s : Storage) (e : Error) → IsUploaded s (thrown e, s)
  unchanged-IsUploaded s e = (inl (refl, refl), SameOthers-of_eq draft.id s s (refl, refl))

  after_remove-IsUploaded :
      (s : Storage) (save : server.Save) (r : Outcome (Unit {0}) × Storage)
      → IsAccepted save
      → IsRemoved draft.id s r
      → SameOthers draft.id s r.1
      → IsUploaded s (after_remove server save r)
  after_remove-IsUploaded s save (returned _, t) a (x, y) others = (a, x, y, others)
  after_remove-IsUploaded s save (thrown e, t) a c others = (inl c, others)

  after_keep-IsUploaded :
      (s : Storage) (r : Outcome (Unit {0}) × Storage)
      → IsPut marked r
      → SameOthers draft.id s r.1
      → IsUploaded s (after_keep server r)
  after_keep-IsUploaded s (returned _, t) (a, b) others = (inr (inl (refl, a)), others)
  after_keep-IsUploaded s (thrown e, t) (a, b) others = (inr (inr (a, b)), others)

  after_upload-IsUploaded :
      (reclaims : Bool) (user : Text) (s : Storage) (r : Outcome server.Save × Log)
      → HasTried r
      → IsUploaded s (after_upload server reclaims user draft s r.0)
  after_upload-IsUploaded reclaims user s (returned save, log) (a, c, k) =
      after_remove-IsUploaded s save (remove_draft user draft.id s) a
        (remove_draft-IsRemoved user draft.id s) (remove_draft-SameOthers user draft.id s)
  after_upload-IsUploaded reclaims user s (thrown mismatch, log) c =
      after_keep-IsUploaded s (put_draft reclaims marked s) (put_draft-IsPut reclaims marked s)
        (put_draft-SameOthers marked s reclaims)
  after_upload-IsUploaded reclaims user s (thrown (api code), log) c =
      unchanged-IsUploaded s (api code)
  after_upload-IsUploaded reclaims user s (thrown other, log) c = unchanged-IsUploaded s other
  after_upload-IsUploaded reclaims user s (thrown storage_failed, log) c =
      unchanged-IsUploaded s storage_failed
  after_upload-IsUploaded reclaims user s (thrown other_account, log) c =
      unchanged-IsUploaded s other_account
  after_upload-IsUploaded reclaims user s (thrown unreadable, log) c =
      unchanged-IsUploaded s unreadable

  -- However the transactions end: if `uploadDraft` returns a save, the server has accepted the draft
  -- by it, for the draft's own run or a new one of the same identity, and the draft is in neither the
  -- memory nor the database. If it throws, both are as before, or the exception is a mismatch and the
  -- database has the draft, with nothing but its mark changed, or it is a failure of the storage and
  -- the memory has that. The drafts of other ids stay as they are.
  pub upload_draft-IsUploaded :
      (reclaims : Bool) (user : Text) (s : Storage)
      → IsUploaded s (upload_draft server reclaims user draft s)
  unfolding upload_draft
  upload_draft-IsUploaded reclaims user s = elim (Bool-cases (same draft.user_id user)) [
    | inl h ↦ rw h (
        after_upload-IsUploaded reclaims user s (upload_with_renewal server draft)
          upload_with_renewal-HasTried)
    | inr h ↦ rw h (unchanged-IsUploaded s other_account)
  ]
