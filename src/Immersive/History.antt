-- ===== src/Immersive/History.antt =====
-- Histories of the detector of immersive-controls.ts, and the double chords in them.
use retrom.Prelude.{ℕ, ◌+◌, ◌≤◌, ◌≡◌, Bool, true, false, List, [], ◌∷◌, some}
use retrom.Immersive.Buttons.{Time, ReservedButton, PerButton, at, Detector, initial}
use retrom.Immersive.Chord.{update}

-- What the detector is told at a time. A history has the last one first.
pub record Sample : Type 0 where
  pub buttons : PerButton Bool
  pub time : Time

abbrev pub History : Type 0
History = List Sample

-- The buttons were held together.
pub data Chorded : History → Type 0 where
  held :
      {f : Sample} {h : History}
      → f.buttons.select ≡ true
      → f.buttons.start ≡ true
      → Chorded (f ∷ h)
  earlier_chord : {f : Sample} {h : History} → Chorded h → Chorded (f ∷ h)

-- Both were up at time `t`, and had been held together before.
pub data Released (t : ℕ) : History → Type 0 where
  up :
      {f : Sample} {h : History}
      → f.buttons.select ≡ false
      → f.buttons.start ≡ false
      → f.time ≡ some t
      → Chorded h
      → Released t (f ∷ h)
  earlier_release : {f : Sample} {h : History} → Released t h → Released t (f ∷ h)

-- The buttons at the last sample of a history; none is down before the first one.
abbrev pub last_buttons : History → PerButton Bool
last_buttons [] = initial.previous
last_buttons (f ∷ h) = f.buttons

-- One went down at time `t`, between 60 and 650 ms behind such a release: it was up at the sample
-- before, and is down at this one.
pub data PressedAgain (t : ℕ) : History → Type 0 where
  down :
      {f : Sample} {h : History} {r : ℕ} (b : ReservedButton)
      → at (last_buttons h) b ≡ false
      → at f.buttons b ≡ true
      → f.time ≡ some t
      → Released r h
      → r + 60 ≤ t
      → t ≤ r + 650
      → PressedAgain t (f ∷ h)
  earlier_press : {f : Sample} {h : History} → PressedAgain t h → PressedAgain t (f ∷ h)

-- The detector behind a history.
unfoldable pub run : History → Detector
unfolding update
run [] = initial
run (f ∷ h) = (update f.buttons f.time (run h)).1

-- The menu opens at the last sample: a double chord ends there.
abbrev pub IsDoubleChord : History → Type 0
IsDoubleChord [] = ⊥
IsDoubleChord (f ∷ h) =
    (f.buttons.select ≡ true)
    × (f.buttons.start ≡ true)
    × ((n : ℕ) × (t : ℕ) × (f.time ≡ some n) × PressedAgain t (f ∷ h) × (n ≤ t + 100))
