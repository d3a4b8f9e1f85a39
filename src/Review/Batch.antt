-- ===== src/Review/Batch.antt =====
-- web/features/games/review-approval.ts: the three workers of a batch, whose approvals settle in
-- any order.
use retrom.Prelude.{
  ℕ, zero, suc, ◌+◌, ◌%◌, Bool, true, false, not, ◌&&◌, ◌||◌, List, [], ◌∷◌, ◌++◌, Option, none,
  some, ltb, ◌==◌, if◌then◌else◌, length, get_elem?,
}
use retrom.Text.{Text}
use retrom.Review.Judging.{
  ReviewCandidate, ReviewReadiness, readiness_of, Verdict, unchecked, approvable, lacks_files,
  lacks_bios, mismatched, judge,
}

-- Details are kept with their game; a failure with its status, if it has one.
pub record ReviewApprovalSummary : Type 0 where
  pub total : ℕ
  pub checked : ℕ
  pub approved : ℕ
  pub missing_bios : ℕ
  pub missing_files : ℕ
  pub crc_mismatch : ℕ
  pub failed : ℕ
  pub interrupted : Bool
  pub failures : List (ReviewCandidate × Option ℕ)
  pub missing_bios_details : List (ReviewCandidate × List Text)
  pub crc_details : List (ReviewCandidate × List Text)
  pub missing_file_details : List (ReviewCandidate × List Text)

-- The games that no worker has taken, those whose approval is awaited, the number of workers, the
-- signal, the summaries that are published, and the approvals that are asked for.
pub record State : Type 0 where
  pub summary : ReviewApprovalSummary
  pub queue : List ReviewCandidate
  pub waiting : List ReviewCandidate
  pub workers : ℕ
  pub aborted : Bool
  pub published : List ReviewApprovalSummary
  pub approvals : List (ReviewCandidate × Option ReviewReadiness)

abbrev pub is_unauthorized : Option ℕ → Bool
is_unauthorized none = false
is_unauthorized (some status) = status == 401 || status == 403

-- `failed`.
unfoldable pub fail : ReviewCandidate → Option ℕ → ReviewApprovalSummary → ReviewApprovalSummary
fail game status s = record s {
  failed = s.failed + 1;
  failures = s.failures ++ (game, status) ∷ [];
  interrupted = is_unauthorized status || s.interrupted;
}

abbrev pub first {ℓ} : {A : Type ℓ} → ℕ → List A → List A
first zero xs = []
first (suc n) [] = []
first (suc n) (x ∷ xs) = x ∷ first n xs

-- `publish`.
unfoldable pub publish : State → State
publish s = record s {
  published =
      s.published
      ++ record s.summary {
        failures = first 20 s.summary.failures;
        missing_bios_details = first 20 s.summary.missing_bios_details;
        missing_file_details = first 20 s.summary.missing_file_details;
        crc_details = first 20 s.summary.crc_details;
      }
        ∷ [];
}

-- The end of a round of a worker.
unfoldable pub check_off : ReviewApprovalSummary → State → State
unfolding publish
check_off summary s =
    let n = summary.checked + 1 in
    let t : State = record s { summary = record summary { checked = n } } in
    if n % 10 == 0 || n == summary.total then publish t else t

-- What becomes of a game by its verdict.
unfoldable pub settle_verdict : ReviewCandidate → Option ReviewReadiness → Verdict → State → State
unfolding check_off fail
settle_verdict game r unchecked s = check_off (fail game none s.summary) s
settle_verdict game r (lacks_files members) s =
    check_off
      (record s.summary {
        missing_files = s.summary.missing_files + 1;
        missing_file_details = s.summary.missing_file_details ++ (game, members) ∷ [];
      })
      s
settle_verdict game r (lacks_bios requirements) s =
    check_off
      (record s.summary {
        missing_bios = s.summary.missing_bios + 1;
        missing_bios_details = s.summary.missing_bios_details ++ (game, requirements) ∷ [];
      })
      s
settle_verdict game r (mismatched warnings) s =
    check_off
      (record s.summary {
        crc_mismatch = s.summary.crc_mismatch + 1;
        crc_details = s.summary.crc_details ++ (game, warnings) ∷ [];
      })
      s
settle_verdict game r approvable s = record s {
  waiting = s.waiting ++ game ∷ [];
  approvals = s.approvals ++ (game, r) ∷ [];
}

-- An approval succeeds, or fails with the status of an ApiError or another exception.
pub data Settled : Type 0 where
  succeeds : Settled
  fails : Option ℕ → Settled

-- What happens: a free worker begins a round, an approval that is awaited settles, or the signal is
-- aborted.
pub data Event : Type 0 where
  begins aborts : Event
  settles : ℕ → Settled → Event

abbrev pub stopped : State → Bool
stopped s = s.aborted || s.summary.interrupted

-- The condition of a worker's loop.
abbrev pub goes_on : State → Bool
goes_on s = ltb 0 (length s.queue) && not (stopped s)

abbrev pub without {ℓ} : {A : Type ℓ} → ℕ → List A → List A
without i [] = []
without zero (x ∷ xs) = xs
without (suc i) (x ∷ xs) = x ∷ without i xs

abbrev pub take_game : List ReviewReadiness → State → List ReviewCandidate → State
take_game readiness s [] = s
take_game readiness s (game ∷ queue) =
    settle_verdict game (readiness_of game.id readiness)
      (judge game (readiness_of game.id readiness)) (record s { queue = queue })

abbrev pub settle : ReviewCandidate → Settled → State → State
settle game succeeds s = check_off (record s.summary { approved = s.summary.approved + 1 }) s
settle game (fails status) s = check_off (fail game status s.summary) s

abbrev pub settle_at : ℕ → Settled → State → Option ReviewCandidate → State
settle_at i settled s none = s
settle_at i settled s (some game) = settle game settled (record s { waiting = without i s.waiting })

unfoldable pub step : List ReviewReadiness → Event → State → State
unfolding settle_verdict readiness_of judge
step readiness begins s =
    if ltb (length s.waiting) s.workers && goes_on s then take_game readiness s s.queue else s
step readiness aborts s = record s { aborted = true }
step readiness (settles i settled) s = settle_at i settled s (get_elem? s.waiting i)

unfoldable pub run : List ReviewReadiness → List Event → State → State
unfolding step
run readiness [] s = s
run readiness (e ∷ es) s = run readiness es (step readiness e s)
