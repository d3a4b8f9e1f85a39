-- ===== src/Input/Directions.antt =====
-- web/features/immersive/input-model.ts: the direction that a gamepad points in.
use retrom.Prelude.{
  Bool, true, false, not, ◌&&◌, Option, none, some, leb, max, if◌then◌else◌, ℤ, magnitude, List,
}
use retrom.Input.Gamepad.{
  Thresholds, GamepadSnapshot, is_negative, is_positive, item, axis_value, pressed_buttons,
}

pub data Direction : Type 0 where
  left right up down : Direction

abbrev pub same_direction : Direction → Direction → Bool
same_direction left left = true
same_direction right right = true
same_direction up up = true
same_direction down down = true
same_direction _ _ = false

-- `digitalDirection`, with `gamepad.buttons.map(buttonPressed)`: a horizontal direction goes first.
unfoldable pub digital_direction : List Bool → Option Direction
digital_direction pressed =
    if item pressed 14
    then some left
    else if item pressed 15
    then some right
    else if item pressed 12
    then some up
    else if item pressed 13
    then some down
    else none

abbrev pub is_horizontal : Direction → Bool
is_horizontal left = true
is_horizontal right = true
is_horizontal up = false
is_horizontal down = false

-- Whether a value has the sign of a direction.
abbrev pub same_sign : Direction → ℤ → Bool
same_sign left v = is_negative v
same_sign up v = is_negative v
same_sign right v = is_positive v
same_sign down v = is_positive v

module _ (limits : Thresholds) where
  -- `entered` of `axisDirection`.
  abbrev pub entered_direction : ℤ → ℤ → Option Direction
  entered_direction horizontal vertical =
      if leb limits.axis_enter (max (magnitude horizontal) (magnitude vertical))
      then (if leb (magnitude vertical) (magnitude horizontal)
          then (if is_negative horizontal then some left else some right)
          else if is_negative vertical
          then some up
          else some down)
      else none

  abbrev pub differs : Option Direction → Option Direction → Bool
  differs none previous = false
  differs (some d) none = true
  differs (some d) (some e) = not (same_direction d e)

  -- The end of `axisDirection`, with a previous direction.
  abbrev pub kept_direction : ℤ → ℤ → Option Direction → Direction → Option Direction
  kept_direction horizontal vertical entered previous =
      let value = if is_horizontal previous then horizontal else vertical in
      if same_sign previous value && leb limits.axis_exit (magnitude value)
      then some previous
      else entered

  abbrev pub with_previous : ℤ → ℤ → Option Direction → Option Direction → Option Direction
  with_previous horizontal vertical entered none = entered
  with_previous horizontal vertical entered (some previous) =
      if differs entered (some previous)
      then entered
      else kept_direction horizontal vertical entered previous

  -- `axisDirection`.
  unfoldable pub axis_direction : GamepadSnapshot → Option Direction → Option Direction
  axis_direction g previous =
      with_previous (axis_value g 0) (axis_value g 1)
        (entered_direction (axis_value g 0) (axis_value g 1)) previous

  -- `digitalDirection(gamepad) ?? axisDirection(gamepad, previous)`.
  unfoldable pub next_direction : GamepadSnapshot → Option Direction → Option Direction
  unfolding digital_direction axis_direction
  next_direction g previous = elim (digital_direction (pressed_buttons limits g)) [
    | some d ↦ some d
    | none ↦ axis_direction g previous
  ]
