-- ===== src/Review/Snapshot.antt =====
-- web/features/games/review-approval.ts: the games that an approval begins with.
use retrom.Prelude.{
  ℕ, zero, suc, ◌+◌, ◌*◌, ◌<◌, ◌≤◌, ◌≢◌, min, Bool, true, not, ◌&&◌, List, [], ◌∷◌, Option, none,
  some, ltb, if◌then◌else◌, length, arith, Bool-cases, inl, inr,
}
use retrom.Text.{same}
use retrom.Review.Judging.{ReviewCandidate}

pub record ReviewPage : Type 0 where
  pub items : List ReviewCandidate
  pub total : ℕ

-- The games, the exceptions of a page or of too many games, and a loop that has not ended.
pub data Snapshot : Type 0 where
  taken : List ReviewCandidate → Snapshot
  load_failed too_many out_of_fuel : Snapshot

-- `games.set`, by the id of a game.
abbrev pub set_game : ReviewCandidate → List ReviewCandidate → List ReviewCandidate
set_game game [] = game ∷ []
set_game game (g ∷ games) = if same g.id game.id then game ∷ games else g ∷ set_game game games

abbrev pub set_games : List ReviewCandidate → List ReviewCandidate → List ReviewCandidate
set_games [] games = games
set_games (game ∷ items) games = set_games items (set_game game games)

-- `Math.min(total, page.total)`, where `none` is Infinity.
abbrev pub least : Option ℕ → ℕ → ℕ
least none n = n
least (some m) n = min m n

abbrev pub is_below : ℕ → Option ℕ → Bool
is_below offset none = true
is_below offset (some total) = ltb offset total

abbrev pub after_page :
    (ℕ → List ReviewCandidate → Snapshot)
    → Option ℕ
    → List ReviewCandidate
    → Option ReviewPage
    → Snapshot
after_page next total games none = load_failed
after_page next total games (some page) =
    if ltb (length page.items) 100
    then taken (set_games page.items games)
    else next (least total page.total) (set_games page.items games)

-- The loop, for a source of pages (`none` is a rejected promise) and a signal that may be aborted at
-- each offset.
module _ (load : ℕ → Option ReviewPage) (aborted : ℕ → Bool) where
  unfoldable pub snapshot_from : ℕ → ℕ → Option ℕ → List ReviewCandidate → Snapshot
  snapshot_from zero offset total games = out_of_fuel
  snapshot_from (suc n) offset total games =
      let next =
        after_page (λ least_total later. snapshot_from n (offset + 100) (some least_total) later)
          total games (load offset) in
      if not (is_below offset total && not (aborted offset))
      then taken games
      else if ltb 100000 offset
      then too_many
      else next

  -- `reviewSnapshot`. The offset 100100 is too far, which is the 1002nd one.
  unfoldable pub review_snapshot : Snapshot
  unfolding snapshot_from
  review_snapshot = snapshot_from 1002 0 none []

  snapshot_from-ends :
      (n offset : ℕ) (total : Option ℕ) (games : List ReviewCandidate)
      → 100100 < offset + 100 * n
      → offset ≤ 100100
      → snapshot_from n offset total games ≢ out_of_fuel
  unfolding snapshot_from
  snapshot_from-ends zero offset total games enough near = elim (clash enough near) [ ]
    where
      clash : 100100 < offset + 100 * zero → offset ≤ 100100 → ⊥
      clash a b = omega arith
  snapshot_from-ends (suc n) offset total games enough near =
      elim (Bool-cases (not (is_below offset total && not (aborted offset)))) [
        | inl stop ↦ rw stop (λ k. ground arith)
        | inr more ↦ elim (Bool-cases (ltb 100000 offset)) [
          | inl far ↦ rw (more, far) (λ k. ground arith)
          | inr within_reach ↦
              rw (more, within_reach)
                (page_ends (load offset) λ least_total later.
                  snapshot_from-ends n (offset + 100) (some least_total) later (omega arith)
                    (ground arith))
        ]
      ]
    where
      page_ends :
          (page : Option ReviewPage)
          → ((least_total : ℕ) (later : List ReviewCandidate)
              → snapshot_from n (offset + 100) (some least_total) later ≢ out_of_fuel)
          → after_page
              (λ least_total later. snapshot_from n (offset + 100) (some least_total) later)
              total
              games
              page
            ≢ out_of_fuel
      page_ends none h = λ k. ground arith
      page_ends (some page) h = elim (Bool-cases (ltb (length page.items) 100)) [
        | inl short ↦ rw short (λ k. ground arith)
        | inr full ↦ rw full (h (least total page.total) (set_games page.items games))
      ]

  -- Whatever pages are loaded and whenever the signal is aborted, the loop ends: with the games, with
  -- the exception of a page, or because there are too many games.
  pub review_snapshot-ends : review_snapshot ≢ out_of_fuel
  unfolding review_snapshot
  review_snapshot-ends = snapshot_from-ends 1002 0 none [] (omega arith) (omega arith)
