-- ===== src/Drafts/Others.antt =====
-- The operations of save-drafts.ts leave the drafts of other ids as they are.
use retrom.Prelude.{
  ◌≡◌, refl, sym, ◌∙◌, subst, Bool, true, false, [], ◌∷◌, Option, none, some, Bool-cases, inl, inr,
}
use retrom.Text.{Text, same, same_sound}
use retrom.Drafts.Renewal.{SaveDraft}
use retrom.Drafts.Store.{
  Drafts, find_draft, set_draft, delete_draft, Ending, completed, quota_exceeded, aborted, Storage,
  transaction, forget, after_retry, after_reclaim, after_put, put_draft, is_of_other, after_delete,
  remove_record, after_get, remove_draft,
}
use retrom.Drafts.Kept.{Changed, transaction-Changed}

module _ (id : Text) where
  -- The drafts of the other ids are the same.
  abbrev pub SameOthersIn : Drafts → Drafts → Type 0
  SameOthersIn ds es = (j : Text) → same id j ≡ false → find_draft j es ≡ find_draft j ds

  abbrev pub SameOthers : Storage → Storage → Type 0
  SameOthers s t = SameOthersIn s.stored t.stored × SameOthersIn s.volatile t.volatile

  other_key : (i j : Text) → same i id ≡ true → same id j ≡ false → same i j ≡ false
  other_key i j h differ = subst (λ x. same x j ≡ false) (sym (same_sound i id h)) differ

  set_draft-SameOthersIn : (d : SaveDraft) (ds : Drafts) → SameOthersIn ds (set_draft id d ds)
  set_draft-SameOthersIn d [] j differ = rw differ refl
  set_draft-SameOthersIn d ((i, e) ∷ ds) j differ = elim (Bool-cases (same i id)) [
    | inl h ↦ rw (h, other_key i j h differ) refl
    | inr h ↦ elim (Bool-cases (same i j)) [
      | inl k ↦ rw (h, k) refl
      | inr k ↦ rw (h, k) (set_draft-SameOthersIn d ds j differ)
    ]
  ]

  delete_draft-SameOthersIn : (ds : Drafts) → SameOthersIn ds (delete_draft id ds)
  delete_draft-SameOthersIn [] j differ = refl
  delete_draft-SameOthersIn ((i, e) ∷ ds) j differ = elim (Bool-cases (same i id)) [
    | inl h ↦ rw (h, other_key i j h differ) (delete_draft-SameOthersIn ds j differ)
    | inr h ↦ elim (Bool-cases (same i j)) [
      | inl k ↦ rw (h, k) refl
      | inr k ↦ rw (h, k) (delete_draft-SameOthersIn ds j differ)
    ]
  ]

  pub SameOthers-of_eq :
      (s t : Storage) → (t.stored ≡ s.stored) × (t.volatile ≡ s.volatile) → SameOthers s t
  SameOthers-of_eq s t (a, b) = rw (a, b) (λ j h. refl, λ j h. refl)

  SameOthers-trans : (s t u : Storage) → SameOthers s t → SameOthers t u → SameOthers s u
  SameOthers-trans s t u (a, b) (c, d) = (λ j h. c j h ∙ a j h, λ j h. d j h ∙ b j h)

  forget-SameOthers : (s t : Storage) → SameOthers s t → SameOthers s (forget id t)
  forget-SameOthers s t (a, b) = (a, λ j h. delete_draft-SameOthersIn t.volatile j h ∙ b j h)

  Changed-SameOthers :
      (change : Drafts → Drafts) (s : Storage) (r : Ending × Storage)
      → ((ds : Drafts) → SameOthersIn ds (change ds))
      → Changed change s r
      → SameOthers s r.1
  Changed-SameOthers change s (completed, t) keeps (a, b) = rw (a, b) (keeps s.stored, λ j h. refl)
  Changed-SameOthers change s (quota_exceeded, t) keeps c = SameOthers-of_eq s t c
  Changed-SameOthers change s (aborted, t) keeps c = SameOthers-of_eq s t c

  transaction-SameOthers :
      (change : Drafts → Drafts) (s t : Storage)
      → ((ds : Drafts) → SameOthersIn ds (change ds))
      → SameOthers s t
      → SameOthers s (transaction change t).1
  transaction-SameOthers change s t keeps h =
      SameOthers-trans s t (transaction change t).1 h
        (Changed-SameOthers change t (transaction change t) keeps (transaction-Changed change t))

module _ (draft : SaveDraft) (s : Storage) where
  after_retry-SameOthers :
      (r : Ending × Storage)
      → SameOthers draft.id s r.1
      → SameOthers draft.id s (after_retry draft r).1
  after_retry-SameOthers (completed, t) h = forget-SameOthers draft.id s t h
  after_retry-SameOthers (quota_exceeded, t) h = h
  after_retry-SameOthers (aborted, t) h = h

  after_reclaim-SameOthers :
      (r : Ending × Storage)
      → SameOthers draft.id s r.1
      → SameOthers draft.id s (after_reclaim draft r).1
  after_reclaim-SameOthers (completed, t) h =
      after_retry-SameOthers (transaction (set_draft draft.id draft) t) (
        transaction-SameOthers draft.id (set_draft draft.id draft) s t
          (set_draft-SameOthersIn draft.id draft) h)
  after_reclaim-SameOthers (quota_exceeded, t) h = h
  after_reclaim-SameOthers (aborted, t) h = h

  after_put-SameOthers :
      (reclaims : Bool) (r : Ending × Storage)
      → SameOthers draft.id s r.1
      → SameOthers draft.id s (after_put reclaims draft r).1
  after_put-SameOthers reclaims (completed, t) h = forget-SameOthers draft.id s t h
  after_put-SameOthers reclaims (aborted, t) h = h
  after_put-SameOthers false (quota_exceeded, t) h = h
  after_put-SameOthers true (quota_exceeded, t) h =
      after_reclaim-SameOthers (transaction (λ ds. ds) t)
        (transaction-SameOthers draft.id (λ ds. ds) s t (λ ds j k. refl) h)

  pub put_draft-SameOthers :
      (reclaims : Bool) → SameOthers draft.id s (put_draft reclaims draft s).1
  unfolding put_draft
  put_draft-SameOthers reclaims =
      let t : Storage = record s { volatile = set_draft draft.id draft s.volatile } in
      after_put-SameOthers reclaims (transaction (set_draft draft.id draft) t) (
        transaction-SameOthers draft.id (set_draft draft.id draft) s t
          (set_draft-SameOthersIn draft.id draft)
          (λ j h. refl, set_draft-SameOthersIn draft.id draft s.volatile))

module _ (user id : Text) (s : Storage) where
  after_delete-SameOthers :
      (r : Ending × Storage) → SameOthers id s r.1 → SameOthers id s (after_delete id r).1
  after_delete-SameOthers (completed, t) h = forget-SameOthers id s t h
  after_delete-SameOthers (quota_exceeded, t) h = h
  after_delete-SameOthers (aborted, t) h = h

  remove_record-SameOthers :
      (t : Storage) (o : Option SaveDraft)
      → SameOthers id s t
      → SameOthers id s (remove_record user id t o).1
  remove_record-SameOthers t none h = forget-SameOthers id s t h
  remove_record-SameOthers t (some d) h = elim (Bool-cases (same d.user_id user)) [
    | inl e ↦ rw e (
        after_delete-SameOthers (transaction (delete_draft id) t)
          (transaction-SameOthers id (delete_draft id) s t (delete_draft-SameOthersIn id) h))
    | inr e ↦ rw e h
  ]

  after_get-SameOthers :
      (r : Ending × Storage) → SameOthers id s r.1 → SameOthers id s (after_get user id r).1
  after_get-SameOthers (completed, t) h = remove_record-SameOthers t (find_draft id t.stored) h
  after_get-SameOthers (quota_exceeded, t) h = h
  after_get-SameOthers (aborted, t) h = h

  pub remove_draft-SameOthers : SameOthers id s (remove_draft user id s).1
  unfolding remove_draft
  remove_draft-SameOthers = elim (Bool-cases (is_of_other user (find_draft id s.volatile))) [
    | inl e ↦ rw e (λ j h. refl, λ j h. refl)
    | inr e ↦ rw e (
        after_get-SameOthers (transaction (λ ds. ds) s)
          (transaction-SameOthers id (λ ds. ds) s s (λ ds j k. refl) (λ j h. refl, λ j h. refl)))
  ]
