-- ===== src/Drafts/Kept.antt =====
-- Which drafts the storage of save-drafts.ts has behind an operation.
use retrom.Prelude.{
  ◌≡◌, refl, ◌∙◌, Bool, true, false, inl, inr, List, [], ◌∷◌, Option, none, some, Bool-cases,
}
use retrom.Text.{Text, same, same_refl}
use retrom.Drafts.Renewal.{SaveDraft, storage_failed, Outcome, returned, thrown}
use retrom.Drafts.Store.{
  Drafts, find_draft, set_draft, delete_draft, Ending, completed, quota_exceeded, aborted, Storage,
  next_ending, apply_if_completed, transaction, forget, after_retry, after_reclaim, after_put,
  put_draft, is_of_other, after_delete, remove_record, after_get, remove_draft,
}

find-set_draft :
    (id : Text) (d : SaveDraft) (ds : Drafts) → find_draft id (set_draft id d ds) ≡ some d
find-set_draft id d [] = rw (same_refl id) refl
find-set_draft id d ((j, e) ∷ ds) = elim (Bool-cases (same j id)) [
  | inl h ↦ rw (h, h) refl
  | inr h ↦ rw (h, h) (find-set_draft id d ds)
]

find-delete_draft : (id : Text) (ds : Drafts) → find_draft id (delete_draft id ds) ≡ none
find-delete_draft id [] = refl
find-delete_draft id ((j, e) ∷ ds) = elim (Bool-cases (same j id)) [
  | inl h ↦ rw h (find-delete_draft id ds)
  | inr h ↦ rw (h, h) (find-delete_draft id ds)
]

-- What a transaction does to the object store when it is completed, and otherwise.
abbrev pub Changed : (Drafts → Drafts) → Storage → Ending × Storage → Type 0
Changed change s (completed, t) = (t.stored ≡ change s.stored) × (t.volatile ≡ s.volatile)
Changed change s (quota_exceeded, t) = (t.stored ≡ s.stored) × (t.volatile ≡ s.volatile)
Changed change s (aborted, t) = (t.stored ≡ s.stored) × (t.volatile ≡ s.volatile)

pub transaction-Changed :
    (change : Drafts → Drafts) (s : Storage) → Changed change s (transaction change s)
unfolding transaction
transaction-Changed change s = changed (next_ending s.endings)
  where
    changed :
        (r : Ending × List Ending)
        → Changed change s
            (r.0, record s { stored = apply_if_completed change r.0 s.stored; endings = r.1 })
    changed (completed, es) = (refl, refl)
    changed (quota_exceeded, es) = (refl, refl)
    changed (aborted, es) = (refl, refl)

-- Behind `putDraft`: the database has the draft, or the memory has it.
abbrev pub IsPut : SaveDraft → Outcome (Unit {0}) × Storage → Type 0
IsPut draft (returned _, s) =
    (find_draft draft.id s.stored ≡ some draft) × (find_draft draft.id s.volatile ≡ none)
IsPut draft (thrown e, s) = (e ≡ storage_failed) × (find_draft draft.id s.volatile ≡ some draft)

module _ (draft : SaveDraft) where
  abbrev InMemory : Storage → Type 0
  InMemory s = find_draft draft.id s.volatile ≡ some draft

  stored-IsPut :
      (s t : Storage)
      → t.stored ≡ set_draft draft.id draft s.stored
      → IsPut draft (returned tt, forget draft.id t)
  stored-IsPut s t e =
      (rw e (find-set_draft draft.id draft s.stored), find-delete_draft draft.id t.volatile)

  still-InMemory : (s t : Storage) → t.volatile ≡ s.volatile → InMemory s → InMemory t
  still-InMemory s t e m = rw e m

  after_retry-IsPut :
      (s : Storage) (r : Ending × Storage)
      → Changed (set_draft draft.id draft) s r
      → InMemory s
      → IsPut draft (after_retry draft r)
  after_retry-IsPut s (completed, t) (e, k) m = stored-IsPut s t e
  after_retry-IsPut s (quota_exceeded, t) (e, k) m = (refl, still-InMemory s t k m)
  after_retry-IsPut s (aborted, t) (e, k) m = (refl, still-InMemory s t k m)

  after_reclaim-IsPut :
      (s : Storage) (r : Ending × Storage)
      → Changed (λ ds. ds) s r
      → InMemory s
      → IsPut draft (after_reclaim draft r)
  after_reclaim-IsPut s (completed, t) (e, k) m =
      after_retry-IsPut t (transaction (set_draft draft.id draft) t)
        (transaction-Changed (set_draft draft.id draft) t) (still-InMemory s t k m)
  after_reclaim-IsPut s (quota_exceeded, t) (e, k) m = (refl, still-InMemory s t k m)
  after_reclaim-IsPut s (aborted, t) (e, k) m = (refl, still-InMemory s t k m)

  after_put-IsPut :
      (reclaims : Bool) (s : Storage) (r : Ending × Storage)
      → Changed (set_draft draft.id draft) s r
      → InMemory s
      → IsPut draft (after_put reclaims draft r)
  after_put-IsPut reclaims s (completed, t) (e, k) m = stored-IsPut s t e
  after_put-IsPut reclaims s (aborted, t) (e, k) m = (refl, still-InMemory s t k m)
  after_put-IsPut false s (quota_exceeded, t) (e, k) m = (refl, still-InMemory s t k m)
  after_put-IsPut true s (quota_exceeded, t) (e, k) m =
      after_reclaim-IsPut t (transaction (λ ds. ds) t) (transaction-Changed (λ ds. ds) t)
        (still-InMemory s t k m)

-- However the transactions end: if `putDraft` returns, the database has the draft and the memory
-- does not; if it throws, that is a failure of the storage, and the memory has the draft.
pub put_draft-IsPut :
    (reclaims : Bool) (draft : SaveDraft) (s : Storage) → IsPut draft (put_draft reclaims draft s)
unfolding put_draft
put_draft-IsPut reclaims draft s =
    let t : Storage = record s { volatile = set_draft draft.id draft s.volatile } in
    after_put-IsPut draft reclaims t (transaction (set_draft draft.id draft) t)
      (transaction-Changed (set_draft draft.id draft) t) (find-set_draft draft.id draft s.volatile)

-- Behind `removeDraft`: the draft is nowhere, or nothing has changed.
abbrev pub IsRemoved : Text → Storage → Outcome (Unit {0}) × Storage → Type 0
IsRemoved id s (returned _, t) = (find_draft id t.stored ≡ none) × (find_draft id t.volatile ≡ none)
IsRemoved id s (thrown e, t) = (t.stored ≡ s.stored) × (t.volatile ≡ s.volatile)

module _ (user id : Text) where
  after_delete-IsRemoved :
      (s : Storage) (r : Ending × Storage)
      → Changed (delete_draft id) s r
      → IsRemoved id s (after_delete id r)
  after_delete-IsRemoved s (completed, t) (e, k) =
      (rw e (find-delete_draft id s.stored), find-delete_draft id t.volatile)
  after_delete-IsRemoved s (quota_exceeded, t) c = c
  after_delete-IsRemoved s (aborted, t) c = c

  remove_record-IsRemoved :
      (s : Storage) (o : Option SaveDraft)
      → find_draft id s.stored ≡ o
      → IsRemoved id s (remove_record user id s o)
  remove_record-IsRemoved s none e = (e, find-delete_draft id s.volatile)
  remove_record-IsRemoved s (some d) e = elim (Bool-cases (same d.user_id user)) [
    | inl h ↦ rw h (
        after_delete-IsRemoved s (transaction (delete_draft id) s)
          (transaction-Changed (delete_draft id) s))
    | inr h ↦ rw h (refl, refl)
  ]

  IsRemoved-Changed :
      (s t : Storage) (r : Outcome (Unit {0}) × Storage)
      → (t.stored ≡ s.stored) × (t.volatile ≡ s.volatile)
      → IsRemoved id t r
      → IsRemoved id s r
  IsRemoved-Changed s t (returned _, u) c k = k
  IsRemoved-Changed s t (thrown e, u) (a, b) (c, d) = (c ∙ a, d ∙ b)

  after_get-IsRemoved :
      (s : Storage) (r : Ending × Storage)
      → Changed (λ ds. ds) s r
      → IsRemoved id s (after_get user id r)
  after_get-IsRemoved s (completed, t) c =
      IsRemoved-Changed s t (remove_record user id t (find_draft id t.stored)) c
        (remove_record-IsRemoved t (find_draft id t.stored) refl)
  after_get-IsRemoved s (quota_exceeded, t) c = c
  after_get-IsRemoved s (aborted, t) c = c

  pub remove_draft-IsRemoved : (s : Storage) → IsRemoved id s (remove_draft user id s)
  unfolding remove_draft
  remove_draft-IsRemoved s = elim (Bool-cases (is_of_other user (find_draft id s.volatile))) [
    | inl h ↦ rw h (refl, refl)
    | inr h ↦
        rw h (after_get-IsRemoved s (transaction (λ ds. ds) s) (transaction-Changed (λ ds. ds) s))
  ]
