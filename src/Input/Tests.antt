-- ===== src/Input/Tests.antt =====
-- The models of input-model.ts on concrete gamepads.
use retrom.Prelude.{
  ℕ, ◌≡◌, refl, true, false, ◌⊎◌, List, [], ◌∷◌, Option, none, some, zero, suc, ℤ, pos,
}
use retrom.Text.{lit}
use retrom.Input.Gamepad.{Thresholds, GamepadButtonSnapshot, GamepadSnapshot}
use retrom.Input.Directions.{Direction, left, right, up, down, next_direction}
use retrom.Input.Navigation.{confirm, direction, button, update, NavigationInputModel, initial}
use retrom.Input.Repeats.{Holds, output_times, paced, output_times-paced}
use retrom.Input.Arming.{History, OnlyDirections, HasRested, run, update-HasRested}

-- The thresholds of the source, in hundredths.
abbrev limits : Thresholds
limits = record { button = 50; axis_enter = 60; axis_exit = 35 }

abbrev released : GamepadButtonSnapshot
released = record { pressed = false; value = some (pos 0) }

abbrev released_buttons : ℕ → List GamepadButtonSnapshot
released_buttons zero = []
released_buttons (suc n) = released ∷ released_buttons n

abbrev gamepad_of : List (Option ℤ) → List GamepadButtonSnapshot → GamepadSnapshot
gamepad_of axes buttons = record {
  axes = axes;
  buttons = buttons;
  connected = true;
  index = 0;
  mapping = lit "standard";
}

abbrev resting : GamepadSnapshot
resting = gamepad_of (some (pos 0) ∷ some (pos 0) ∷ []) (released_buttons 16)

-- Button 0 is down, and the axis points right.
abbrev pressing : GamepadSnapshot
pressing =
    gamepad_of (some (pos 80) ∷ some (pos 0) ∷ [])
      (record { pressed = true; value = some (pos 100) } ∷ released_buttons 15)

abbrev rested : History
rested = (some resting, 120) ∷ (some resting, 0) ∷ []

abbrev restless : History
restless = (some resting, 119) ∷ (some resting, 0) ∷ []

acts_when_rested :
    (update limits (some pressing) 200 (run limits false rested)).0.actions
    ≡ (direction right ∷ button confirm ∷ [])
unfolding update run retrom.Text.same retrom.Input.Gamepad.is_neutral
acts_when_rested = refl

is_silent_when_restless :
    (update limits (some pressing) 200 (run limits false restless)).0.actions ≡ []
unfolding update run retrom.Text.same retrom.Input.Gamepad.is_neutral
is_silent_when_restless = refl

moves_when_restless :
    (update limits (some pressing) 119 (run limits true restless)).0.actions
    ≡ (direction right ∷ [])
unfolding update run retrom.Text.same retrom.Input.Gamepad.is_neutral
moves_when_restless = refl

update-HasRested_example :
    OnlyDirections (update limits (some pressing) 200 (run limits false rested)).0.actions
    ⊎ HasRested limits ((some pressing, 200) ∷ rested)
update-HasRested_example = update-HasRested limits false (some pressing) 200 rested

pressing-Holds : (now : ℕ) → Holds limits right (pressing, now)
unfolding retrom.Input.Gamepad.is_standard_gamepad next_direction retrom.Text.same
pressing-Holds now = (refl, points)
  where
    points : (previous : Option Direction) → next_direction limits pressing previous ≡ some right
    points none = refl
    points (some left) = refl
    points (some right) = refl
    points (some up) = refl
    points (some down) = refl

abbrev armed_model : NavigationInputModel
armed_model = record (initial false) { armed = true }

abbrev held : List (GamepadSnapshot × ℕ)
held = (pressing, 300) ∷ (pressing, 450) ∷ (pressing, 500) ∷ (pressing, 570) ∷ []

held_repeats : paced limits right 450 held ≡ (450, right) ∷ (570, right) ∷ []
unfolding paced
held_repeats = refl

output_times-paced_example :
    output_times limits right ((pressing, 100) ∷ held) armed_model
    ≡ (100, right) ∷ paced limits right 450 held
output_times-paced_example =
    output_times-paced limits right pressing 100 held armed_model
      (
        pressing-Holds 100,
        (pressing-Holds 300, (pressing-Holds 450, (pressing-Holds 500, (pressing-Holds 570, tt)))),
      )
      refl refl
