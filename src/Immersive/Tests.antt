-- ===== src/Immersive/Tests.antt =====
-- The immersive mode on concrete input.
use retrom.Prelude.{ℕ, ◌≡◌, ◌<◌, ◌≤◌, ◌+◌, refl, List, [], ◌∷◌, Bool, true, false, some, arith}
use retrom.Text.{lit, same}
use retrom.Immersive.Buttons.{Time, select_button, start_button, initial, quiet}
use retrom.Immersive.Chord.{update, advance, update_gate}
use retrom.Immersive.History.{Sample, History, run, IsDoubleChord}
use retrom.Immersive.DoubleChord.{menu-IsDoubleChord}
use retrom.Immersive.Presses.{
  outputs, neither, both, only, puts_out, press_of_one, double_chord-opens,
}
use retrom.Immersive.Neutral.{NeutralSince, run_gate, gate-IsNeutral}
use retrom.Immersive.ListJump.{
  LetterStart, previous, next, page_target, is_jump_action, letter_target, letter_at, find,
  find_last, find_last_index, page_target-bounds,
}
use retrom.Immersive.Neighbours.{AscendingOffsets, IsNeighbour, letter_target-IsNeighbour}

abbrev groups : List LetterStart
groups =
    record { letter = lit "A"; offset = 0; count = 4 }
    ∷ record { letter = lit "C"; offset = 4; count = 3 }
    ∷ record { letter = lit "M"; offset = 7; count = 9 }
    ∷ []

groups-AscendingOffsets : AscendingOffsets groups
groups-AscendingOffsets = ((omega arith, (omega arith, tt)), ((omega arith, tt), (tt, tt)))

jumps :
    (letter_at groups 5 ≡ lit "C")
    × (letter_target groups 5 previous ≡ some 4)
    × (letter_target groups 4 previous ≡ some 0)
    × (letter_target groups 5 next ≡ some 7)
unfolding letter_at letter_target find find_last find_last_index
jumps = (refl, refl, refl, refl)

jump_names : (is_jump_action (lit "pageNext") ≡ true) × (is_jump_action (lit "left") ≡ false)
unfolding is_jump_action same
jump_names = (refl, refl)

letter_target-IsNeighbour_example : IsNeighbour 4 groups previous (letter_target groups 4 previous)
letter_target-IsNeighbour_example =
    letter_target-IsNeighbour 4 groups previous groups-AscendingOffsets

page_target-bounds_example :
    ((page_target 7 5 next 10 true).index < 10)
    × ((page_target 7 5 next 10 true).load_more ≡ true
        → (true ≡ true) × ((page_target 7 5 next 10 true).index + 1 ≡ 10))
page_target-bounds_example = page_target-bounds 7 5 10 next true (omega arith)

-- Two chords, the second one at 300 ms behind the release of the first; the last sample first.
abbrev two_chords : History
two_chords =
    record { buttons = neither; time = some 150 } ∷ record { buttons = both; time = some 50 } ∷ []

abbrev end_of_chords : Sample
end_of_chords = record { buttons = both; time = some 450 }

opens_there : (update end_of_chords.buttons end_of_chords.time (run two_chords)).0.open_menu ≡ true
unfolding update advance run
opens_there = refl

menu-IsDoubleChord_example : IsDoubleChord (end_of_chords ∷ two_chords)
menu-IsDoubleChord_example = menu-IsDoubleChord end_of_chords two_chords opens_there

press_of_one_example :
    outputs initial ((only start_button, 10) ∷ (only start_button, 120) ∷ (neither, 130) ∷ [])
    ≡ puts_out start_button false ∷ puts_out start_button true ∷ puts_out start_button false ∷ []
press_of_one_example = press_of_one start_button 10 120 130 (omega arith) (omega arith)

double_chord-opens_example :
    outputs initial (
      (only select_button, 10)
      ∷ (both, 40)
      ∷ (neither, 90)
      ∷ (only start_button, 400)
      ∷ (both, 500)
      ∷ [])
    ≡ quiet ∷ quiet ∷ quiet ∷ quiet ∷ record quiet { open_menu = true } ∷ []
double_chord-opens_example =
    double_chord-opens select_button start_button 10 40 90 400 500 (omega arith) (omega arith)
      (omega arith) (omega arith) (omega arith) (omega arith) (omega arith)

abbrev rest : List (Bool × Time)
rest = (true, some 60) ∷ (true, some 20) ∷ (false, some 10) ∷ []

gate_open : (update_gate true (some 140) (run_gate rest)).0 ≡ true
unfolding update_gate run_gate
gate_open = refl

gate-IsNeutral_example :
    (t : ℕ) × (n : ℕ) × (some 140 ≡ some n)
    × (t + 120 ≤ n)
    × NeutralSince t ((true, some 140) ∷ rest)
gate-IsNeutral_example = gate-IsNeutral true (some 140) rest gate_open
