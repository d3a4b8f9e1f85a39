-- ===== src/Disposal/Waiting.antt =====
-- web/features/player/runtime/wait-native-save.ts: the wait for a save that the game writes itself.
use retrom.Prelude.{
  ℕ, zero, suc, ◌+◌, ◌<◌, ◌≤◌, ◌≡◌, Bool, true, false, not, ◌&&◌, leb, if◌then◌else◌, Bool-cases,
  inl, inr, arith,
}

-- The reasons that the code reads.
pub data Reason : Type 0 where
  busy failed another : Reason

-- `revision` is whether there is one.
pub record Availability : Type 0 where
  pub available : Bool
  pub revision : Bool
  pub reason : Reason

-- What is foreign: the clock, a wait for the next check, and what the runtime says of itself.
pub record Clock : Type 1 where
  pub World : Type 0
  pub now : World → ℕ
  pub next_check : World → World
  pub is_failed : World → Bool
  pub availability : World → Availability

pub data Waited : Type 0 where
  known : Availability → Waited
  save_failed still_busy out_of_fuel : Waited

abbrev pub is_busy : Reason → Bool
is_busy busy = true
is_busy failed = false
is_busy another = false

abbrev pub has_failed : Reason → Bool
has_failed busy = false
has_failed failed = true
has_failed another = false

module _ (clock : Clock) where
  -- The loop of `waitForNativeSave`, without a signal.
  unfoldable pub wait_until : ℕ → ℕ → clock.World → Waited × clock.World
  wait_until zero deadline w = (out_of_fuel, w)
  wait_until (suc n) deadline w =
      let a = clock.availability w in
      let later = wait_until n deadline (clock.next_check w) in
      if has_failed a.reason && not (clock.is_failed w)
      then (save_failed, w)
      else if not (is_busy a.reason)
      then (known a, w)
      else if leb deadline (clock.now w)
      then (still_busy, w)
      else later

  -- `waitForNativeSave`: a check each millisecond would be the 10001st at the deadline.
  unfoldable pub wait_for_native_save : clock.World → Waited × clock.World
  unfolding wait_until
  wait_for_native_save w = wait_until 10001 (clock.now w + 10000) w

  -- An availability that the wait may end with.
  abbrev pub IsSettled : Waited → Type 0
  IsSettled (known a) = is_busy a.reason ≡ false
  IsSettled save_failed = Unit
  IsSettled still_busy = Unit
  IsSettled out_of_fuel = ⊥

  -- A round of the loop, by what follows a wait.
  round-IsSettled :
      (k deadline : ℕ) (w : clock.World)
      → (leb deadline (clock.now w) ≡ false
          → IsSettled (wait_until k deadline (clock.next_check w)).0)
      → IsSettled (wait_until (suc k) deadline w).0
  unfolding wait_until
  round-IsSettled k deadline w next =
      elim (Bool-cases (has_failed (clock.availability w).reason && not (clock.is_failed w))) [
        | inl e ↦ rw e tt
        | inr e ↦ elim (Bool-cases (is_busy (clock.availability w).reason)) [
          | inr b ↦ rw (e, b) b
          | inl b ↦ elim (Bool-cases (leb deadline (clock.now w))) [
            | inl late ↦ rw (e, b, late) tt
            | inr early ↦ rw (e, b, early) (next early)
          ]
        ]
      ]

  module _ (advances : (w : clock.World) → clock.now w < clock.now (clock.next_check w)) where
    wait_until-IsSettled :
        (k deadline : ℕ) (w : clock.World)
        → deadline ≤ k + clock.now w
        → IsSettled (wait_until (suc k) deadline w).0
    wait_until-IsSettled zero deadline w enough =
        round-IsSettled zero deadline w λ early. elim (clash early) [ ]
      where
        clash : leb deadline (clock.now w) ≡ false → ⊥
        clash e = ground arith
    wait_until-IsSettled (suc k) deadline w enough =
        round-IsSettled (suc k) deadline w
          λ early. wait_until-IsSettled k deadline (clock.next_check w) (later (advances w))
      where
        later :
            clock.now w < clock.now (clock.next_check w)
            → deadline ≤ k + clock.now (clock.next_check w)
        later a = omega arith

    -- When each wait takes a millisecond or more, `waitForNativeSave` ends, and an availability that it
    -- returns is not busy.
    pub wait_for_native_save-IsSettled : (w : clock.World) → IsSettled (wait_for_native_save w).0
    unfolding wait_for_native_save
    wait_for_native_save-IsSettled w =
        wait_until-IsSettled 10000 (clock.now w + 10000) w (omega arith)
