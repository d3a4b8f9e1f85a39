-- ===== src/Disposal/Tests.antt =====
-- The end of a runtime over a concrete one, whose world is the time.
use retrom.Prelude.{
  ℕ, ◌+◌, ◌<◌, ◌≡◌, true, false, List, [], ◌∷◌, ◌++◌, none, some, leb, if◌then◌else◌, arith,
}
use retrom.Disposal.Waiting.{
  busy, another, Clock, IsSettled, wait_for_native_save, wait_for_native_save-IsSettled,
}
use retrom.Disposal.Exiting.{
  Runtime, absent, Call, exited, dispose_runtime, IsOrderly, dispose_runtime-IsOrderly,
}

-- The game writes for 60 ms.
abbrev clock : Clock
clock = record {
  World = ℕ;
  now = λ w. w;
  next_check = λ w. w + 50;
  is_failed = λ w. false;
  availability = λ w. record {
    available = true;
    revision = true;
    reason = if leb 60 w then another else busy;
  };
}

abbrev runtime : Runtime
runtime = record {
  clock = clock;
  Checkpoint = ℕ;
  Image = ℕ;
  is_created = λ w. false;
  before_snapshot = λ w. (true, w);
  checkpoint = λ w. (some 1, w);
  shown = λ c. absent;
  screenshot = λ w. (none, w);
  on_snapshot = λ c picture w. (true, w);
  exit = λ w. (true, w);
}

wait_for_native_save-IsSettled_example : IsSettled clock (wait_for_native_save clock 0).0
wait_for_native_save-IsSettled_example = wait_for_native_save-IsSettled clock advances 0
  where
    advances : (w : ℕ) → w < w + 50
    advances w = omega arith

dispose_runtime-IsOrderly_example :
    (before : List Call) × ((dispose_runtime runtime 0).1 ≡ before ++ exited ∷ [])
    × IsOrderly runtime before (wait_for_native_save clock 0)
dispose_runtime-IsOrderly_example = dispose_runtime-IsOrderly runtime 0
