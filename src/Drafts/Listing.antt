-- ===== src/Drafts/Listing.antt =====
-- web/features/player/save-drafts.ts: the list of a user's drafts.
use retrom.Prelude.{Bool, not, List, [], ◌∷◌, leb, if◌then◌else◌, any}
use retrom.Text.{Text, same}
use retrom.Drafts.Renewal.{SaveDraft, unreadable, Outcome, returned, thrown}
use retrom.Drafts.Store.{
  Drafts, set_draft, Ending, completed, quota_exceeded, aborted, Storage, transaction,
}

abbrev pub drafts_in : Drafts → List SaveDraft
drafts_in [] = []
drafts_in ((id, d) ∷ ds) = d ∷ drafts_in ds

-- `unique`, with further drafts of some records.
abbrev pub add_drafts : Drafts → List SaveDraft → Drafts
add_drafts unique [] = unique
add_drafts unique (d ∷ ds) = add_drafts (set_draft d.id d unique) ds

abbrev pub is_of_user : Text → SaveDraft → Bool
is_of_user user d = same d.user_id user

abbrev pub drafts_of : Text → List SaveDraft → List SaveDraft
drafts_of user [] = []
drafts_of user (d ∷ ds) = if is_of_user user d then d ∷ drafts_of user ds else drafts_of user ds

-- `sort((a, b) => b.createdAtMs - a.createdAtMs)`, which is stable.
unfoldable pub insert_draft : SaveDraft → List SaveDraft → List SaveDraft
insert_draft d [] = d ∷ []
insert_draft d (e ∷ es) =
    if leb e.created_at d.created_at then d ∷ e ∷ es else e ∷ insert_draft d es

unfoldable pub sort_drafts : List SaveDraft → List SaveDraft
unfolding insert_draft
sort_drafts [] = []
sort_drafts (d ∷ ds) = insert_draft d (sort_drafts ds)

-- The list, of the records of the database.
unfoldable pub listing : Text → List SaveDraft → List SaveDraft → List SaveDraft
unfolding sort_drafts
listing user records volatile =
    sort_drafts (drafts_of user (drafts_in (add_drafts (add_drafts [] records) volatile)))

abbrev pub if_unreadable : Text → Storage → Outcome (List SaveDraft) × Storage
if_unreadable user s =
    if not (any (is_of_user user) (drafts_in s.volatile))
    then (thrown unreadable, s)
    else (returned (listing user [] (drafts_in s.volatile)), s)

abbrev pub after_get_all : Text → Ending × Storage → Outcome (List SaveDraft) × Storage
after_get_all user (completed, s) =
    (returned (listing user (drafts_in s.stored) (drafts_in s.volatile)), s)
after_get_all user (quota_exceeded, s) = if_unreadable user s
after_get_all user (aborted, s) = if_unreadable user s

-- `listDrafts`.
unfoldable pub list_drafts : Text → Storage → Outcome (List SaveDraft) × Storage
unfolding listing transaction
list_drafts user s = after_get_all user (transaction (λ ds. ds) s)
