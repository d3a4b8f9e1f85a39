-- ===== src/Drafts/Tests.antt =====
-- Drafts of save-drafts.ts over a concrete server.
use retrom.Prelude.{◌≡◌, ◌↔◌, refl, true, false, List, [], ◌∷◌, none, some, pos, if◌then◌else◌}
use retrom.Text.{Text, lit, same}
use retrom.Value.{Value, num, str, array, object, plain, cons, nil, field, end}
use retrom.Drafts.Identity.{same_identity}
use retrom.Drafts.Paths.{Step, index, key, num_leaf, follow}
use retrom.Drafts.Leaves.{same_identity-follow_iff}
use retrom.Drafts.Renewal.{
  checkpoint, SaveDraft, api, storage_failed, returned, thrown, Server, upload_with_renewal,
}
use retrom.Drafts.Store.{Storage, quota_exceeded, aborted, put_draft, upload_draft}
use retrom.Drafts.Kept.{IsPut, put_draft-IsPut}
use retrom.Drafts.Uploaded.{
  HasTried, upload_with_renewal-HasTried, IsUploaded, upload_draft-IsUploaded,
}

abbrev extinfo : Value
extinfo = object plain (
    field (lit "coreId") (str (lit "nes"))
      (field (lit "discs") (array (cons (num (pos 4)) nil)) end))

-- The same, with its keys in another order.
abbrev reordered : Value
reordered = object plain (
    field (lit "discs") (array (cons (num (pos 4)) nil))
      (field (lit "coreId") (str (lit "nes")) end))

identity_of_reordered : same_identity extinfo reordered ≡ true
unfolding same_identity retrom.Provider.Contract.strict_same same
identity_of_reordered = refl

abbrev first_disc : List Step
first_disc = key (lit "discs") ∷ index 0 ∷ []

same_identity-follow_iff_example :
    (follow first_disc extinfo ≡ some (num (pos 4)))
    ↔ (follow first_disc reordered ≡ some (num (pos 4)))
unfolding same
same_identity-follow_iff_example =
    same_identity-follow_iff first_disc extinfo reordered (num (pos 4)) (num_leaf (pos 4))
      ((refl, (refl, tt)), (tt, ((tt, tt), tt))) identity_of_reordered

abbrev draft : SaveDraft
draft = record {
  id = lit "d1";
  user_id = lit "u1";
  game_id = lit "g1";
  game_title = lit "Game";
  created_at = 5;
  metadata = record {
    commit_id = lit "d1";
    run_id = lit "old";
    name = lit "save";
    kind = checkpoint;
    slot = none;
    version = none;
    extinfo = extinfo;
  };
  save_id = none;
  payload = 1 ∷ 2 ∷ [];
  screenshot = none;
  checkpoint_metadata = extinfo;
  recovery_error = false;
}

-- The draft's own run has expired; a new one has the same identity.
abbrev server : Server
server = record {
  Save = Text;
  upload = λ request.
      if same request.metadata.run_id (lit "new")
      then returned (lit "s1")
      else thrown (api (lit "CONTEXT_EXPIRED"));
  post_run = λ request. returned (record { id = lit "new"; extinfo = reordered });
}

abbrev stored_draft : Storage
stored_draft = record { volatile = []; stored = (lit "d1", draft) ∷ []; endings = [] }

uploads : (upload_draft server true (lit "u1") draft stored_draft).0 ≡ returned (lit "s1")
unfolding upload_draft retrom.Provider.Contract.strict_same same
uploads = refl

full :
    (put_draft false draft (record stored_draft { endings = quota_exceeded ∷ [] })).0
    ≡ thrown storage_failed
unfolding put_draft
full = refl

frees :
    (put_draft true draft (record stored_draft { endings = quota_exceeded ∷ [] })).0 ≡ returned tt
unfolding put_draft
frees = refl

put_draft-IsPut_example :
    IsPut draft
      (put_draft true draft (record stored_draft { endings = quota_exceeded ∷ aborted ∷ [] }))
put_draft-IsPut_example =
    put_draft-IsPut true draft (record stored_draft { endings = quota_exceeded ∷ aborted ∷ [] })

upload_with_renewal-HasTried_example : HasTried server draft (upload_with_renewal server draft)
upload_with_renewal-HasTried_example = upload_with_renewal-HasTried server draft

upload_draft-IsUploaded_example :
    IsUploaded server draft stored_draft (upload_draft server true (lit "u1") draft stored_draft)
upload_draft-IsUploaded_example = upload_draft-IsUploaded server draft true (lit "u1") stored_draft
