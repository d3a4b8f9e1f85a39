-- ===== src/Review/Approved.antt =====
-- What an approval of review-approval.ts comes to, over all its batches.
use retrom.Prelude.{
  ◌≡◌, refl, subst, Bool, true, ◌⊎◌, List, none, some, length, All, Option-cases, inl, inr, arith,
}
use retrom.Review.Judging.{ReviewCandidate}
use retrom.Review.Batch.{State, publish, stopped}
use retrom.Review.Approval.{BatchRun, approve_from, start, approve_review_snapshot}
use retrom.Review.Publishable.{IsPublishable}
use retrom.Review.Counts.{IsBalanced}
use retrom.Review.Between.{zero_add, Between, approve_from-Between}

-- What an approval has come to.
abbrev pub IsApproved : List ReviewCandidate → State → Type 0
IsApproved games s =
    (s.summary.total ≡ length games)
    × IsBalanced s.summary
    × All IsPublishable s.approvals
    × ((s.summary.interrupted ≡ true) ⊎ (s.summary.checked ≡ length games))

same_state : (t s : State) → some t ≡ some s → t ≡ s
same_state t s h = cc h

start-Between :
    (games : List ReviewCandidate) (aborted : Bool)
    → Between (length games) (length games) (publish (start (length games) aborted))
unfolding publish
start-Between games aborted = (
  refl,
  record {
    total_checked = refl;
    all_failures = refl;
    all_bios = refl;
    all_files = refl;
    all_crc = refl;
  },
  refl,
  tt,
  inr (refl, zero_add (length games)),
)

finish-IsApproved :
    (games : List ReviewCandidate) (t : State)
    → Between (length games) 0 t
    → IsApproved games
        (publish (record t { summary = record t.summary { interrupted = stopped t } }))
unfolding publish
finish-IsApproved games t (total, b, w, a, last) = (
  total,
  record {
    total_checked = b.total_checked;
    all_failures = b.all_failures;
    all_bios = b.all_bios;
    all_files = b.all_files;
    all_crc = b.all_crc;
  },
  a,
  elim last [ inl halted ↦ inl halted | inr (queue, count) ↦ inr (omega arith) ],
)

-- An approval that comes to its end has counted each game that it checked once, and its counts add
-- up; it has asked for the approval only of games whose own readiness lets them be published; and it
-- was interrupted, or it has checked all games.
pub approve_review_snapshot-IsApproved :
    (runs : List BatchRun) (games : List ReviewCandidate) (aborted : Bool) (s : State)
    → approve_review_snapshot runs games aborted ≡ some s
    → IsApproved games s
unfolding approve_review_snapshot
approve_review_snapshot-IsApproved runs games aborted s h =
    elim (Option-cases (approve_from runs games (publish (start (length games) aborted)))) [
      | inl e ↦ elim (nothing (rw e at h)) [ ]
      | inr (t, e) ↦
          ended t
            (approve_from-Between (length games) runs games (publish (start (length games) aborted))
              t (start-Between games aborted) e)
            (rw e at h)
    ]
  where
    nothing : none ≡ some s → ⊥
    nothing k = ground arith

    ended :
        (t : State)
        → Between (length games) 0 t
        → some (publish (record t { summary = record t.summary { interrupted = stopped t } }))
          ≡ some s
        → IsApproved games s
    ended t between k =
        subst (IsApproved games) (same_state _ s k) (finish-IsApproved games t between)
