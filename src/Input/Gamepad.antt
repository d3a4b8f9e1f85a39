-- ===== src/Input/Gamepad.antt =====
-- web/features/immersive/input-model.ts: snapshots of gamepads. A value is counted in a unit in
-- which all values and the three thresholds are integers; it is `none` for NaN, and an infinite one
-- is not modelled.
use retrom.Prelude.{
  ℕ, zero, suc, Bool, true, false, not, ◌&&◌, ◌||◌, List, [], ◌∷◌, Option, none, some, ltb, leb,
  length, map, all, any, get_elem?, ℤ, pos, negsuc, magnitude,
}
use retrom.Text.{Text, lit, same}

pub record Thresholds : Type 0 where
  pub button : ℕ
  pub axis_enter : ℕ
  pub axis_exit : ℕ

pub record GamepadButtonSnapshot : Type 0 where
  pub pressed : Bool
  pub value : Option ℤ

pub record GamepadSnapshot : Type 0 where
  pub axes : List (Option ℤ)
  pub buttons : List GamepadButtonSnapshot
  pub connected : Bool
  pub index : ℕ
  pub mapping : Text

-- `Number.isFinite`.
abbrev pub is_finite : Option ℤ → Bool
is_finite none = false
is_finite (some v) = true

-- `isStandardGamepad`.
unfoldable pub is_standard_gamepad : GamepadSnapshot → Bool
is_standard_gamepad g =
    g.connected
    && same g.mapping (lit "standard")
    && leb 16 (length g.buttons)
    && all (λ b. is_finite b.value) g.buttons
    && all is_finite g.axes

abbrev pub is_negative : ℤ → Bool
is_negative (pos n) = false
is_negative (negsuc n) = true

abbrev pub is_positive : ℤ → Bool
is_positive (pos n) = ltb 0 n
is_positive (negsuc n) = false

-- `value >= threshold`, for a threshold that is not negative.
abbrev pub reaches : ℕ → Option ℤ → Bool
reaches threshold (some (pos n)) = leb threshold n
reaches threshold (some (negsuc n)) = false
reaches threshold none = false

-- An item of an array of truth values; one that is missing is undefined.
abbrev pub item : List Bool → ℕ → Bool
item [] i = false
item (b ∷ bs) zero = b
item (b ∷ bs) (suc i) = item bs i

-- `axisValue`.
abbrev pub finite_or_zero : Option (Option ℤ) → ℤ
finite_or_zero none = pos 0
finite_or_zero (some none) = pos 0
finite_or_zero (some (some v)) = v

abbrev pub axis_value : GamepadSnapshot → ℕ → ℤ
axis_value g index = finite_or_zero (get_elem? g.axes index)

module _ (limits : Thresholds) where
  -- `buttonPressed`, of a button that is there.
  abbrev pub button_pressed : GamepadButtonSnapshot → Bool
  button_pressed b = b.pressed || reaches limits.button b.value

  -- `gamepad.buttons.map(buttonPressed)`.
  abbrev pub pressed_buttons : GamepadSnapshot → List Bool
  pressed_buttons g = map button_pressed g.buttons

  -- `isNeutral`, of a gamepad that is there.
  unfoldable pub is_neutral : GamepadSnapshot → Bool
  is_neutral g =
      not (any button_pressed g.buttons)
      && ltb (magnitude (axis_value g 0)) limits.axis_exit
      && ltb (magnitude (axis_value g 1)) limits.axis_exit
