-- ===== src/Review/Approval.antt =====
-- web/features/games/review-approval.ts: the batches of an approval, and the games it begins with.
use retrom.Prelude.{
  ℕ, ◌+◌, min, Bool, false, not, ◌&&◌, List, [], ◌∷◌, Option, none, some, ltb, ◌==◌, if◌then◌else◌,
  length, drop,
}
use retrom.Review.Judging.{ReviewCandidate, ReviewReadiness}
use retrom.Review.Batch.{
  ReviewApprovalSummary, State, fail, first, publish, stopped, goes_on, Event, run,
}

-- What `actions.readiness` does for a batch: it fails with a status, if any, or its workers go by
-- some events.
pub data BatchRun : Type 0 where
  unavailable : Option ℕ → BatchRun
  available : List ReviewReadiness → List Event → BatchRun

abbrev pub fail_all :
    Option ℕ → List ReviewCandidate → ReviewApprovalSummary → ReviewApprovalSummary
fail_all status [] s = s
fail_all status (game ∷ games) s = fail_all status games (fail game status s)

-- `batch`.
unfoldable pub batch : BatchRun → List ReviewCandidate → State → State
unfolding fail publish run
batch (unavailable status) items s =
    let failed = fail_all status items s.summary in
    publish (record s { summary = record failed { checked = failed.checked + length items } })
batch (available readiness events) items s =
    run readiness events (record s { queue = items; waiting = []; workers = min 3 (length items) })

-- All workers have come to their end. The queue is empty behind a readiness that is unavailable.
abbrev pub is_finished : State → Bool
is_finished s = (length s.waiting == 0) && not (goes_on s)

-- The loop over the batches; `none` if a promise is never settled.
unfoldable pub approve_from : List BatchRun → List ReviewCandidate → State → Option State
unfolding batch
approve_from [] games s = if ltb 0 (length games) && not (stopped s) then none else some s
approve_from (r ∷ runs) games s =
    let t = batch r (first 100 games) s in
    let rest = approve_from runs (drop 100 games) t in
    if ltb 0 (length games) && not (stopped s)
    then (if is_finished t then rest else none)
    else some s

abbrev pub empty_summary : ℕ → ReviewApprovalSummary
empty_summary total = record {
  total = total;
  checked = 0;
  approved = 0;
  missing_bios = 0;
  missing_files = 0;
  crc_mismatch = 0;
  failed = 0;
  interrupted = false;
  failures = [];
  missing_bios_details = [];
  crc_details = [];
  missing_file_details = [];
}

abbrev pub start : ℕ → Bool → State
start total aborted = record {
  summary = empty_summary total;
  queue = [];
  waiting = [];
  workers = 0;
  aborted = aborted;
  published = [];
  approvals = [];
}

abbrev pub finish : Option State → Option State
finish none = none
finish (some s) =
    some (publish (record s { summary = record s.summary { interrupted = stopped s } }))

-- `approveReviewSnapshot`, with whether the signal is aborted at first.
unfoldable pub approve_review_snapshot : List BatchRun → List ReviewCandidate → Bool → Option State
unfolding approve_from publish
approve_review_snapshot runs games aborted =
    finish (approve_from runs games (publish (start (length games) aborted)))
