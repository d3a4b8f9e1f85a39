-- ===== src/Review/Judging.antt =====
-- web/features/games/review-approval.ts: what is known of a game, and what becomes of it.
use retrom.Prelude.{
  ℕ, Bool, not, List, [], ◌∷◌, Option, none, some, ltb, ◌==◌, if◌then◌else◌, length,
}
use retrom.Text.{Text, same}

pub record ReviewCandidate : Type 0 where
  pub id : Text
  pub title : Text
  pub version : ℕ

-- The details of a readiness are texts. `error` is the message of one.
pub record ReviewReadiness : Type 0 where
  pub id : Text
  pub version : ℕ
  pub error : Option Text
  pub bios_satisfied : Option Bool
  pub missing_bios : List Text
  pub missing_rom_members : List Text
  pub crc_warnings : List Text

-- `new Map(…).get`: a later readiness goes before an earlier one.
unfoldable pub readiness_of : Text → List ReviewReadiness → Option ReviewReadiness
readiness_of id [] = none
readiness_of id (r ∷ rs) = elim (readiness_of id rs) [
  | some later ↦ some later
  | none ↦ if same r.id id then some r else none
]

abbrev pub of_version : ℕ → ReviewReadiness → Option Bool → Option Bool
of_version version r none = none
of_version version r (some satisfied) = if r.version == version then some satisfied else none

abbrev pub without_error : Option Text → Option Bool → Option Bool
without_error (some message) satisfied = none
without_error none satisfied = satisfied

-- `eligible`, which throws if it is `none`.
abbrev pub eligible : ReviewCandidate → ReviewReadiness → Option Bool
eligible game r = of_version game.version r (without_error r.error r.bios_satisfied)

pub data Verdict : Type 0 where
  unchecked approvable : Verdict
  lacks_files lacks_bios mismatched : List Text → Verdict

abbrev pub judge_eligible : ReviewReadiness → Option Bool → Verdict
judge_eligible r none = unchecked
judge_eligible r (some satisfied) =
    if ltb 0 (length r.missing_rom_members)
    then lacks_files r.missing_rom_members
    else if not satisfied
    then lacks_bios r.missing_bios
    else if ltb 0 (length r.crc_warnings)
    then mismatched r.crc_warnings
    else approvable

-- The tests of a worker on a game.
unfoldable pub judge : ReviewCandidate → Option ReviewReadiness → Verdict
judge game none = unchecked
judge game (some r) = judge_eligible r (eligible game r)
