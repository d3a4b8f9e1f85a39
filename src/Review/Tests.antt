-- ===== src/Review/Tests.antt =====
-- The approval of review-approval.ts on two games.
use retrom.Prelude.{ℕ, String, ◌≡◌, ◌≢◌, refl, true, false, List, [], ◌∷◌, Option, none, some}
use retrom.Text.{Text, lit, same}
use retrom.Review.Judging.{ReviewCandidate, ReviewReadiness}
use retrom.Review.Batch.{State, begins, settles, aborts, succeeds, fails, run}
use retrom.Review.Approval.{BatchRun, available, unavailable, start, approve_review_snapshot}
use retrom.Review.Counts.{Sound, run-Sound}
use retrom.Review.Snapshot.{ReviewPage, taken, out_of_fuel, review_snapshot, review_snapshot-ends}
use retrom.Review.Approved.{IsApproved, approve_review_snapshot-IsApproved}

abbrev game : String → ReviewCandidate
game id = record { id = lit id; title = lit id; version = 3 }

abbrev ready : String → List Text → ReviewReadiness
ready id warnings = record {
  id = lit id;
  version = 3;
  error = none;
  bios_satisfied = some true;
  missing_bios = [];
  missing_rom_members = [];
  crc_warnings = warnings;
}

abbrev games : List ReviewCandidate
games = game "a" ∷ game "b" ∷ game "c" ∷ []

-- The games "a" and "c" are approved, the later one first; "b" has a warning.
abbrev runs : List BatchRun
runs =
    available (ready "a" [] ∷ ready "b" (lit "crc" ∷ []) ∷ ready "c" [] ∷ [])
      (begins ∷ begins ∷ begins ∷ settles 1 succeeds ∷ settles 0 (fails (some 500)) ∷ [])
    ∷ []

abbrev counts : Option State → List ℕ
counts none = []
counts (some s) =
    s.summary.checked ∷ s.summary.approved ∷ s.summary.crc_mismatch ∷ s.summary.failed ∷ []

approves : counts (approve_review_snapshot runs games false) ≡ 3 ∷ 1 ∷ 1 ∷ 1 ∷ []
unfolding approve_review_snapshot same
approves = refl

-- A failure by 401 interrupts the approval.
interrupts :
    counts (approve_review_snapshot (unavailable (some 401) ∷ []) games false) ≡ 3 ∷ 0 ∷ 0 ∷ 3 ∷ []
unfolding approve_review_snapshot same
interrupts = refl

abbrev or_start : Option State → State
or_start none = start 0 false
or_start (some s) = s

approve_review_snapshot-IsApproved_example :
    IsApproved games (or_start (approve_review_snapshot runs games false))
unfolding approve_review_snapshot same
approve_review_snapshot-IsApproved_example =
    approve_review_snapshot-IsApproved runs games false
      (or_start (approve_review_snapshot runs games false)) refl

abbrev one : State
one = record (start 3 false) { queue = games; workers = 3 }

run-Sound_example :
    Sound 3 3 (run (ready "a" [] ∷ []) (begins ∷ aborts ∷ settles 0 succeeds ∷ []) one)
run-Sound_example =
    run-Sound 3 3 (ready "a" [] ∷ []) (begins ∷ aborts ∷ settles 0 succeeds ∷ []) one (
      refl,
      record {
        total_checked = refl;
        all_failures = refl;
        all_bios = refl;
        all_files = refl;
        all_crc = refl;
      },
      refl,
      tt,
    )

abbrev page : ℕ → Option ReviewPage
page offset = some (record { items = games; total = 3 })

takes : review_snapshot page (λ offset. false) ≡ taken games
unfolding review_snapshot same
takes = refl

review_snapshot-ends_example : review_snapshot page (λ offset. false) ≢ out_of_fuel
review_snapshot-ends_example = review_snapshot-ends page λ offset. false
