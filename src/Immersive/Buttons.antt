-- ===== src/Immersive/Buttons.antt =====
-- web/features/player/immersive-controls.ts: its times, the reserved buttons and the state of the
-- detector. A time is `none` for NaN; an infinite one is not modelled. A difference of times is
-- compared with a bound by an addition on the other side.
use retrom.Prelude.{ℕ, ◌+◌, Bool, false, Option, none, some, ltb, leb}

abbrev pub Time : Type 0
Time = Option ℕ

abbrev pub chord_window : ℕ
chord_window = 100

abbrev pub chord_release : ℕ
chord_release = 60

abbrev pub second_chord_limit : ℕ
second_chord_limit = 650

abbrev pub neutral_time : ℕ
neutral_time = 120

-- `a < b`, and `now - since` against a bound; NaN fails each test.
abbrev pub earlier : Time → Time → Bool
earlier (some a) (some b) = ltb a b
earlier _ _ = false

abbrev pub at_least : ℕ → Time → Time → Bool
at_least n (some since) (some now) = leb (since + n) now
at_least n _ _ = false

abbrev pub at_most : ℕ → Time → Time → Bool
at_most n (some since) (some now) = leb now (since + n)
at_most n _ _ = false

abbrev pub more_than : ℕ → Time → Time → Bool
more_than n (some since) (some now) = ltb (since + n) now
more_than n _ _ = false

abbrev pub less_than : ℕ → Time → Time → Bool
less_than n (some since) (some now) = ltb now (since + n)
less_than n _ _ = false

pub data ReservedButton : Type 0 where
  select_button start_button : ReservedButton

-- A value for each of the reserved buttons.
pub record PerButton {ℓ} (A : Type ℓ) : Type ℓ where
  pub select : A
  pub start : A

abbrev pub at {ℓ} : {A : Type ℓ} → PerButton A → ReservedButton → A
at b select_button = b.select
at b start_button = b.start

abbrev pub other : ReservedButton → ReservedButton
other select_button = start_button
other start_button = select_button

pub record ReservedButtonOutput : Type 0 where
  pub open_menu : Bool
  pub select_output : Bool
  pub start_output : Bool

pub record Candidate : Type 0 where
  pub first : ReservedButton
  pub started_at : Time
  pub second_chord : Bool

pub record Detector : Type 0 where
  pub previous : PerButton Bool
  pub down_at : PerButton (Option Time)
  pub candidate : Option Candidate
  pub chord : Option Bool
  pub first_completed : Option Time
  pub last_now : Time

abbrev pub no_times : PerButton (Option Time)
no_times = record { select = none; start = none }

-- A new detector, and one behind `reset`.
abbrev pub initial : Detector
initial = record {
  previous = record { select = false; start = false };
  down_at = no_times;
  candidate = none;
  chord = none;
  first_completed = none;
  last_now = some 0;
}

abbrev pub quiet : ReservedButtonOutput
quiet = record { open_menu = false; select_output = false; start_output = false }
