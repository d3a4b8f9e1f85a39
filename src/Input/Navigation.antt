-- ===== src/Input/Navigation.antt =====
-- web/features/immersive/input-model.ts: the class NavigationInputModel.
use retrom.Prelude.{
  ℕ, ◌+◌, Bool, true, false, not, ◌&&◌, ◌||◌, List, [], ◌∷◌, ◌++◌, Option, none, some, leb,
  if◌then◌else◌,
}
use retrom.Input.Gamepad.{
  Thresholds, GamepadSnapshot, item, is_standard_gamepad, pressed_buttons, is_neutral,
}
use retrom.Input.Directions.{Direction, same_direction, next_direction}

pub data JumpAction : Type 0 where
  page_previous page_next group_previous group_next : JumpAction

-- The actions of the buttons.
pub data ButtonAction : Type 0 where
  confirm cancel menu favorite : ButtonAction

pub data NavigationAction : Type 0 where
  direction : Direction → NavigationAction
  button : ButtonAction → NavigationAction
  jump : JumpAction → NavigationAction

pub record NavigationUpdate : Type 0 where
  pub actions : List NavigationAction
  pub neutral : Bool
  pub neutral_ready : Bool

pub record NavigationInputModel : Type 0 where
  pub previous_buttons : List Bool
  pub direction : Option Direction
  pub next_repeat_at : ℕ
  pub jump : Option JumpAction
  pub next_jump_at : ℕ
  pub neutral_since : Option ℕ
  pub neutral_delay : ℕ
  pub armed : Bool
  pub direction_before_neutral : Bool

abbrev pub initial_repeat : ℕ
initial_repeat = 350

abbrev pub repeat_time : ℕ
repeat_time = 120

-- The constructor.
abbrev pub initial : Bool → NavigationInputModel
initial allow_direction_before_neutral = record {
  previous_buttons = [];
  direction = none;
  next_repeat_at = 0;
  jump = none;
  next_jump_at = 0;
  neutral_since = none;
  neutral_delay = 120;
  armed = false;
  direction_before_neutral = allow_direction_before_neutral;
}

-- `reset`.
abbrev pub reset : ℕ → NavigationInputModel → NavigationInputModel
reset delay m = record (initial m.direction_before_neutral) { neutral_delay = delay }

abbrev pub same_jump : JumpAction → JumpAction → Bool
same_jump page_previous page_previous = true
same_jump page_next page_next = true
same_jump group_previous group_previous = true
same_jump group_next group_next = true
same_jump _ _ = false

abbrev pub rises : List Bool → List Bool → ℕ → Bool
rises pressed previous i = item pressed i && not (item previous i)

-- `risingButtonAction`.
unfoldable pub rising_button_action : List Bool → List Bool → Option ButtonAction
rising_button_action pressed previous =
    if rises pressed previous 1
    then some cancel
    else if rises pressed previous 0
    then some confirm
    else if rises pressed previous 8
    then some menu
    else if rises pressed previous 3
    then some favorite
    else none

-- The table `jumpButtons`, and the first of them that is down.
unfoldable pub held_button : List Bool → Option JumpAction
held_button pressed =
    if item pressed 4
    then some page_previous
    else if item pressed 5
    then some page_next
    else if item pressed 6
    then some group_previous
    else if item pressed 7
    then some group_next
    else none

abbrev pub is_jump : JumpAction → Option JumpAction → Bool
is_jump next none = false
is_jump next (some j) = same_jump next j

-- `heldJump`, with the jump button that is down.
abbrev pub jump_for :
    Option JumpAction → ℕ → NavigationInputModel → Option JumpAction × NavigationInputModel
jump_for none now m = (none, record m { jump = none })
jump_for (some next) now m =
    if not (is_jump next m.jump)
    then (some next, record m { jump = some next; next_jump_at = now + initial_repeat })
    else if not (leb m.next_jump_at now)
    then (none, m)
    else (some next, record m { next_jump_at = now + repeat_time })

-- `heldJump`.
unfoldable pub held_jump :
    List Bool → ℕ → NavigationInputModel → Option JumpAction × NavigationInputModel
unfolding held_button
held_jump pressed now m = jump_for (held_button pressed) now m

abbrev pub is_direction : Direction → Option Direction → Bool
is_direction next none = false
is_direction next (some d) = same_direction next d

-- The start of `actionsFor`: the direction that is put out, if any.
unfoldable pub move_direction :
    Option Direction → ℕ → NavigationInputModel → Option Direction × NavigationInputModel
move_direction none now m = (none, record m { direction = none; next_repeat_at = 0 })
move_direction (some next) now m =
    if not (is_direction next m.direction)
    then (some next, record m { direction = some next; next_repeat_at = now + initial_repeat })
    else if leb m.next_repeat_at now
    then (some next, record m { next_repeat_at = now + repeat_time })
    else (none, m)

-- `if (action) {actions.push(action);}`.
abbrev pub push {ℓ} : {A : Type ℓ} → (A → NavigationAction) → Option A → List NavigationAction
push f none = []
push f (some a) = f a ∷ []

abbrev pub is_due : ℕ → ℕ → Option ℕ → Bool
is_due now delay none = false
is_due now delay (some since) = leb (since + delay) now

abbrev pub since_neutral : Bool → ℕ → Option ℕ → Option ℕ
since_neutral false now since = none
since_neutral true now none = some now
since_neutral true now (some since) = some since

-- The part of `update` that arms the model.
unfoldable pub arm : Bool → ℕ → NavigationInputModel → NavigationInputModel
arm neutral now m =
    let since = since_neutral neutral now m.neutral_since in
    if m.armed
    then m
    else if is_due now m.neutral_delay since
    then record m { neutral_since = since; armed = true; direction_before_neutral = false }
    else record m { neutral_since = since }

module _ (limits : Thresholds) where
  -- `actionsFor`.
  unfoldable pub actions_for :
      GamepadSnapshot
      → List Bool
      → ℕ
      → Bool
      → NavigationInputModel
      → List NavigationAction × NavigationInputModel
  unfolding next_direction move_direction rising_button_action held_jump
  actions_for g pressed now buttons_allowed m =
      let (moved, m1) = move_direction (next_direction limits g m.direction) now m in
      let pushed =
        if buttons_allowed then rising_button_action pressed m1.previous_buttons else none in
      let (jumped, m2) = if buttons_allowed then held_jump pressed now m1 else (none, m1) in
      (push direction moved ++ push button pushed ++ push jump jumped, m2)

  -- `update`, for a standard gamepad.
  unfoldable pub update_standard :
      GamepadSnapshot → ℕ → NavigationInputModel → NavigationUpdate × NavigationInputModel
  unfolding arm actions_for
  update_standard g now m =
      let neutral = is_neutral limits g in
      let armed = arm neutral now m in
      let pressed = pressed_buttons limits g in
      let (actions, m2) =
        if armed.armed || armed.direction_before_neutral
        then actions_for g pressed now armed.armed armed
        else ([], armed) in
      (
        record { actions = actions; neutral = neutral; neutral_ready = armed.armed },
        record m2 { previous_buttons = pressed },
      )

  -- `update`.
  unfoldable pub update :
      Option GamepadSnapshot → ℕ → NavigationInputModel → NavigationUpdate × NavigationInputModel
  unfolding update_standard is_standard_gamepad
  update none now m =
      (record { actions = []; neutral = false; neutral_ready = false }, reset m.neutral_delay m)
  update (some g) now m = if is_standard_gamepad g then update_standard g now m else (
    record { actions = []; neutral = false; neutral_ready = false },
    reset m.neutral_delay m,
  )
