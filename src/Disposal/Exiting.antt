-- ===== src/Disposal/Exiting.antt =====
-- web/features/player/runtime/dispose-runtime.ts: the last snapshot of a runtime, and its exit.
use retrom.Prelude.{
  ◌≡◌, refl, Bool, true, false, ◌&&◌, ◌⊎◌, inl, inr, List, [], ◌∷◌, ◌++◌, Option, none, some,
  if◌then◌else◌, Bool-cases, and-eq-true_iff, All, All-append,
}
use retrom.Disposal.Waiting.{
  Availability, Clock, Waited, known, save_failed, still_busy, out_of_fuel, wait_for_native_save,
}

-- The image of a checkpoint: one of its own, the one that the save has, or none.
pub data Shown (Image : Type 0) : Type 0 where
  image : Image → Shown Image
  unchanged absent : Shown Image

-- What is foreign: the calls of the runtime and of the caller. `none` and false are exceptions.
pub record Runtime : Type 1 where
  pub clock : Clock
  pub Checkpoint : Type 0
  pub Image : Type 0
  pub is_created : clock.World → Bool
  pub before_snapshot : clock.World → Bool × clock.World
  pub checkpoint : clock.World → Option Checkpoint × clock.World
  pub shown : Checkpoint → Shown Image
  pub screenshot : clock.World → Option Image × clock.World
  pub on_snapshot : Checkpoint → Option Image → clock.World → Bool × clock.World
  pub exit : clock.World → Bool × clock.World

pub data Call : Type 0 where
  made_checkpoint took_screenshot gave_snapshot exited : Call

module _ (runtime : Runtime) where
  abbrev World : Type 0
  World = runtime.clock.World

  -- Whether a function returns (it throws otherwise), with the calls that it has made.
  abbrev pub Ended : Type 0
  Ended = Bool × List Call × World

  -- `runtime.screenshot().catch(() => null)`.
  abbrev pub taken_screenshot : World → Option runtime.Image × List Call × World
  taken_screenshot w =
      let (picture, w1) = runtime.screenshot w in (picture, took_screenshot ∷ [], w1)

  abbrev pub screenshot_of :
      Shown runtime.Image → Bool → World → Option runtime.Image × List Call × World
  screenshot_of (image picture) keeps_image w = (some picture, [], w)
  screenshot_of unchanged true w = (none, [], w)
  screenshot_of unchanged false w = taken_screenshot w
  screenshot_of absent keeps_image w = taken_screenshot w

  -- `checkpointScreenshot`.
  abbrev pub checkpoint_screenshot :
      runtime.Checkpoint → Bool → World → Option runtime.Image × List Call × World
  checkpoint_screenshot c keeps_image w = screenshot_of (runtime.shown c) keeps_image w

  abbrev pub give_snapshot : runtime.Checkpoint → Option runtime.Image × List Call × World → Ended
  give_snapshot c (picture, calls, w) =
      let (fine, w1) = runtime.on_snapshot c picture w in
      (fine, made_checkpoint ∷ calls ++ gave_snapshot ∷ [], w1)

  abbrev pub after_checkpoint : Option runtime.Checkpoint × World → Ended
  after_checkpoint (none, w) = (false, made_checkpoint ∷ [], w)
  after_checkpoint (some c, w) = give_snapshot c (checkpoint_screenshot c true w)

  -- What follows the wait.
  abbrev pub after_wait : Waited × World → Ended
  after_wait (save_failed, w) = (false, [], w)
  after_wait (still_busy, w) = (false, [], w)
  after_wait (out_of_fuel, w) = (false, [], w)
  after_wait (known a, w) =
      if a.available && a.revision then after_checkpoint (runtime.checkpoint w) else (true, [], w)

  abbrev pub before_wait : Bool × World → Ended
  before_wait (false, w) = (false, [], w)
  before_wait (true, w) =
      if runtime.is_created w
      then (true, [], w)
      else after_wait (wait_for_native_save runtime.clock w)

  -- The `finally`: an exception of `exit` takes the place of any other.
  abbrev pub finally_exit : Ended → Ended
  finally_exit (fine, calls, w) =
      let (exits, w1) = runtime.exit w in (exits && fine, calls ++ exited ∷ [], w1)

  -- `disposeRuntime`.
  unfoldable pub dispose_runtime : World → Ended
  unfolding wait_for_native_save
  dispose_runtime w = finally_exit (before_wait (runtime.before_snapshot w))

  -- The wait ends with an availability of a save.
  abbrev pub HasSave : Waited × World → Type 0
  HasSave waited =
      (a : Availability) × (v : World) × (waited ≡ (known a, v))
      × (a.available ≡ true)
      × (a.revision ≡ true)

  abbrev pub is_exit : Call → Bool
  is_exit made_checkpoint = false
  is_exit took_screenshot = false
  is_exit gave_snapshot = false
  is_exit exited = true

  abbrev pub NoExit : List Call → Type 0
  NoExit calls = All (λ c. is_exit c ≡ false) calls

  screenshot_of-NoExit :
      (s : Shown runtime.Image) (keeps : Bool) (w : World) → NoExit (screenshot_of s keeps w).1
  screenshot_of-NoExit (image picture) keeps w = tt
  screenshot_of-NoExit unchanged true w = tt
  screenshot_of-NoExit unchanged false w = (refl, tt)
  screenshot_of-NoExit absent keeps w = (refl, tt)

  after_checkpoint-NoExit : (r : Option runtime.Checkpoint × World) → NoExit (after_checkpoint r).1
  after_checkpoint-NoExit (none, w) = (refl, tt)
  after_checkpoint-NoExit (some c, w) = (
    refl,
    All-append (λ c. is_exit c ≡ false) (checkpoint_screenshot c true w).1 (gave_snapshot ∷ [])
        (screenshot_of-NoExit (runtime.shown c) true w) (refl, tt),
  )

  -- The calls before the exit, with the wait.
  abbrev pub IsOrderly : List Call → Waited × World → Type 0
  IsOrderly calls waited = NoExit calls × ((calls ≡ []) ⊎ HasSave waited)

  after_wait-IsOrderly : (r : Waited × World) → IsOrderly (after_wait r).1 r
  after_wait-IsOrderly (save_failed, w) = (tt, inl refl)
  after_wait-IsOrderly (still_busy, w) = (tt, inl refl)
  after_wait-IsOrderly (out_of_fuel, w) = (tt, inl refl)
  after_wait-IsOrderly (known a, w) = elim (Bool-cases (a.available && a.revision)) [
    | inl e ↦
        let (available, revision) = (and-eq-true_iff _ _).0 e in
        rw e (after_checkpoint-NoExit (runtime.checkpoint w), inr (a, w, refl, available, revision))
    | inr e ↦ rw e (tt, inl refl)
  ]

  before_wait-IsOrderly :
      (r : Bool × World) → IsOrderly (before_wait r).1 (wait_for_native_save runtime.clock r.1)
  before_wait-IsOrderly (false, w) = (tt, inl refl)
  before_wait-IsOrderly (true, w) = elim (Bool-cases (runtime.is_created w)) [
    | inl e ↦ rw e (tt, inl refl)
    | inr e ↦ rw e (after_wait-IsOrderly (wait_for_native_save runtime.clock w))
  ]

  -- Whatever returns or throws, the runtime is told to exit once, behind all other calls; and a
  -- checkpoint is made, a screenshot taken or a snapshot given only if the wait for a native save has
  -- ended with an available save that has a revision.
  pub dispose_runtime-IsOrderly :
      (w : World)
      → (before : List Call) × ((dispose_runtime w).1 ≡ before ++ exited ∷ [])
        × IsOrderly before (wait_for_native_save runtime.clock (runtime.before_snapshot w).1)
  unfolding dispose_runtime
  dispose_runtime-IsOrderly w = (
    (before_wait (runtime.before_snapshot w)).1,
    refl,
    before_wait-IsOrderly (runtime.before_snapshot w),
  )
