-- ===== src/Drafts/Store.antt =====
-- web/features/player/save-drafts.ts: the drafts in memory and in the database of the browser.
use retrom.Prelude.{Bool, true, false, not, List, [], ◌∷◌, Option, none, some, if◌then◌else◌}
use retrom.Text.{Text, same}
use retrom.Drafts.Renewal.{
  SaveDraft, mismatch, storage_failed, other_account, unreadable, api, other, Outcome, returned,
  thrown, Server, upload_with_renewal,
}

-- A Map, and an object store: the values with their keys, in the order of insertion.
abbrev pub Drafts : Type 0
Drafts = List (Text × SaveDraft)

abbrev pub find_draft : Text → Drafts → Option SaveDraft
find_draft id [] = none
find_draft id ((j, d) ∷ ds) = if same j id then some d else find_draft id ds

abbrev pub set_draft : Text → SaveDraft → Drafts → Drafts
set_draft id draft [] = (id, draft) ∷ []
set_draft id draft ((j, d) ∷ ds) =
    if same j id then (j, draft) ∷ ds else (j, d) ∷ set_draft id draft ds

abbrev pub delete_draft : Text → Drafts → Drafts
delete_draft id [] = []
delete_draft id ((j, d) ∷ ds) =
    if same j id then delete_draft id ds else (j, d) ∷ delete_draft id ds

-- How a transaction ends, or the freeing of storage: an aborted one leaves the database as it was.
pub data Ending : Type 0 where
  completed quota_exceeded aborted : Ending

-- `volatileDrafts`, the object store, and how the next transactions end.
pub record Storage : Type 0 where
  pub volatile : Drafts
  pub stored : Drafts
  pub endings : List Ending

abbrev pub next_ending : List Ending → Ending × List Ending
next_ending [] = (completed, [])
next_ending (e ∷ es) = (e, es)

abbrev pub apply_if_completed : (Drafts → Drafts) → Ending → Drafts → Drafts
apply_if_completed change completed drafts = change drafts
apply_if_completed change quota_exceeded drafts = drafts
apply_if_completed change aborted drafts = drafts

-- `transaction`, with what it does to the object store.
unfoldable pub transaction : (Drafts → Drafts) → Storage → Ending × Storage
transaction change s =
    let (ending, later) = next_ending s.endings in
    (ending, record s { stored = apply_if_completed change ending s.stored; endings = later })

abbrev pub forget : Text → Storage → Storage
forget id s = record s { volatile = delete_draft id s.volatile }

-- The transaction behind the freeing of storage.
abbrev pub after_retry : SaveDraft → Ending × Storage → Outcome (Unit {0}) × Storage
after_retry draft (completed, s) = (returned tt, forget draft.id s)
after_retry draft (quota_exceeded, s) = (thrown storage_failed, s)
after_retry draft (aborted, s) = (thrown storage_failed, s)

abbrev pub after_reclaim : SaveDraft → Ending × Storage → Outcome (Unit {0}) × Storage
after_reclaim draft (completed, s) = after_retry draft (transaction (set_draft draft.id draft) s)
after_reclaim draft (quota_exceeded, s) = (thrown storage_failed, s)
after_reclaim draft (aborted, s) = (thrown storage_failed, s)

abbrev pub after_put : Bool → SaveDraft → Ending × Storage → Outcome (Unit {0}) × Storage
after_put reclaims draft (completed, s) = (returned tt, forget draft.id s)
after_put reclaims draft (aborted, s) = (thrown storage_failed, s)
after_put false draft (quota_exceeded, s) = (thrown storage_failed, s)
after_put true draft (quota_exceeded, s) = after_reclaim draft (transaction (λ ds. ds) s)

-- `putDraft`, with whether storage can be freed.
unfoldable pub put_draft : Bool → SaveDraft → Storage → Outcome (Unit {0}) × Storage
unfolding transaction
put_draft reclaims draft s = after_put reclaims draft (
    transaction (set_draft draft.id draft)
      (record s { volatile = set_draft draft.id draft s.volatile }))

abbrev pub is_of_other : Text → Option SaveDraft → Bool
is_of_other user none = false
is_of_other user (some d) = not (same d.user_id user)

abbrev pub after_delete : Text → Ending × Storage → Outcome (Unit {0}) × Storage
after_delete id (completed, s) = (returned tt, forget id s)
after_delete id (quota_exceeded, s) = (thrown unreadable, s)
after_delete id (aborted, s) = (thrown unreadable, s)

-- What follows the reading of the record.
abbrev pub remove_record : Text → Text → Storage → Option SaveDraft → Outcome (Unit {0}) × Storage
remove_record user id s none = (returned tt, forget id s)
remove_record user id s (some d) =
    if not (same d.user_id user)
    then (thrown other_account, s)
    else after_delete id (transaction (delete_draft id) s)

abbrev pub after_get : Text → Text → Ending × Storage → Outcome (Unit {0}) × Storage
after_get user id (completed, s) = remove_record user id s (find_draft id s.stored)
after_get user id (quota_exceeded, s) = (thrown unreadable, s)
after_get user id (aborted, s) = (thrown unreadable, s)

-- `removeDraft`.
unfoldable pub remove_draft : Text → Text → Storage → Outcome (Unit {0}) × Storage
unfolding transaction
remove_draft user id s =
    if is_of_other user (find_draft id s.volatile)
    then (thrown other_account, s)
    else after_get user id (transaction (λ ds. ds) s)

module _ (server : Server) where
  abbrev pub after_remove :
      server.Save → Outcome (Unit {0}) × Storage → Outcome server.Save × Storage
  after_remove save (returned _, s) = (returned save, s)
  after_remove save (thrown e, s) = (thrown e, s)

  -- The `catch` behind the upload of a mismatch.
  abbrev pub after_keep : Outcome (Unit {0}) × Storage → Outcome server.Save × Storage
  after_keep (returned _, s) = (thrown mismatch, s)
  after_keep (thrown e, s) = (thrown e, s)

  abbrev pub after_upload :
      Bool → Text → SaveDraft → Storage → Outcome server.Save → Outcome server.Save × Storage
  after_upload reclaims user draft s (returned save) =
      after_remove save (remove_draft user draft.id s)
  after_upload reclaims user draft s (thrown mismatch) =
      after_keep (put_draft reclaims (record draft { recovery_error = true }) s)
  after_upload reclaims user draft s (thrown (api code)) = (thrown (api code), s)
  after_upload reclaims user draft s (thrown other) = (thrown other, s)
  after_upload reclaims user draft s (thrown storage_failed) = (thrown storage_failed, s)
  after_upload reclaims user draft s (thrown other_account) = (thrown other_account, s)
  after_upload reclaims user draft s (thrown unreadable) = (thrown unreadable, s)

  -- `uploadDraft`, with the user who is signed in.
  unfoldable pub upload_draft : Bool → Text → SaveDraft → Storage → Outcome server.Save × Storage
  unfolding upload_with_renewal put_draft remove_draft
  upload_draft reclaims user draft s =
      if not (same draft.user_id user)
      then (thrown other_account, s)
      else after_upload reclaims user draft s (upload_with_renewal server draft).0
