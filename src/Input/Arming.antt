-- ===== src/Input/Arming.antt =====
-- When the model of input-model.ts lets buttons act.
use retrom.Prelude.{
  ℕ, ◌+◌, ◌≤◌, ◌≡◌, refl, subst, ◌∙◌, Bool, true, false, ◌||◌, ◌⊎◌, List, [], ◌∷◌, Option, none,
  some, leb, if◌then◌else◌, All, Bool-cases, Option-cases, inl, inr, arith,
}
use retrom.Input.Gamepad.{
  Thresholds, GamepadSnapshot, is_standard_gamepad, is_neutral, pressed_buttons,
}
use retrom.Input.Directions.{Direction, next_direction}
use retrom.Input.Navigation.{
  JumpAction, NavigationAction, direction, button, jump, NavigationInputModel, NavigationUpdate,
  initial, jump_for, held_jump, held_button, move_direction, actions_for, is_due, since_neutral,
  arm, update_standard, update,
}

-- What a model is told: a gamepad, if there is one, and the time. The last one stands first.
abbrev pub History : Type 0
History = List (Option GamepadSnapshot × ℕ)

-- An action of a shoulder, a trigger or another button.
abbrev pub of_direction : NavigationAction → Bool
of_direction (direction d) = true
of_direction (button b) = false
of_direction (jump j) = false

abbrev pub OnlyDirections : List NavigationAction → Type 0
OnlyDirections actions = All (λ a. of_direction a ≡ true) actions

-- The fields that arming depends on.
abbrev Keeps : NavigationInputModel → NavigationInputModel → Type 0
Keeps m n =
    (n.armed ≡ m.armed) × (n.neutral_since ≡ m.neutral_since) × (n.neutral_delay ≡ m.neutral_delay)

move_direction-Keeps :
    (o : Option Direction) (now : ℕ) (m : NavigationInputModel) → Keeps m (move_direction o now m).1
unfolding move_direction
move_direction-Keeps none now m = (refl, refl, refl)
move_direction-Keeps (some d) now m = ground arith

jump_for-Keeps :
    (o : Option JumpAction) (now : ℕ) (m : NavigationInputModel) → Keeps m (jump_for o now m).1
jump_for-Keeps none now m = (refl, refl, refl)
jump_for-Keeps (some j) now m = ground arith

arm_fields :
    (neutral : Bool) (now : ℕ) (m : NavigationInputModel)
    → ((arm neutral now m).armed
        ≡ (m.armed || is_due now m.neutral_delay (since_neutral neutral now m.neutral_since)))
      × ((arm neutral now m).neutral_since
          ≡ (if m.armed then m.neutral_since else since_neutral neutral now m.neutral_since))
      × ((arm neutral now m).neutral_delay ≡ m.neutral_delay)
unfolding arm
arm_fields neutral now m = (ground arith, ground arith, ground arith)

module _ (limits : Thresholds) where
  actions_for-Keeps :
      (g : GamepadSnapshot) (pressed : List Bool) (now : ℕ) (allowed : Bool)
      (m : NavigationInputModel)
      → Keeps m (actions_for limits g pressed now allowed m).1
  unfolding actions_for held_jump
  actions_for-Keeps g pressed now false m =
      move_direction-Keeps (next_direction limits g m.direction) now m
  actions_for-Keeps g pressed now true m =
      let first = move_direction-Keeps (next_direction limits g m.direction) now m in
      let second =
        jump_for-Keeps (held_button pressed) now
          (move_direction (next_direction limits g m.direction) now m).1 in
      (second.0 ∙ first.0, second.1 ∙ first.1, second.2 ∙ first.2)

  -- Buttons that are not allowed do not act.
  actions_for-OnlyDirections :
      (g : GamepadSnapshot) (pressed : List Bool) (now : ℕ) (m : NavigationInputModel)
      → OnlyDirections (actions_for limits g pressed now false m).0
  unfolding actions_for
  actions_for-OnlyDirections g pressed now m =
      elim (Option-cases (move_direction (next_direction limits g m.direction) now m).0) [
        | inl e ↦ rw e tt
        | inr (d, e) ↦ rw e (refl, tt)
      ]

  -- All gamepads since time `t` have been standard ones at rest.
  pub data AtRestSince (t : ℕ) : History → Type 0 where
    starts :
        {g : GamepadSnapshot} {h : History}
        → is_standard_gamepad g ≡ true
        → is_neutral limits g ≡ true
        → AtRestSince t ((some g, t) ∷ h)
    goes_on :
        {g : GamepadSnapshot} {now : ℕ} {h : History}
        → is_standard_gamepad g ≡ true
        → is_neutral limits g ≡ true
        → AtRestSince t h
        → AtRestSince t ((some g, now) ∷ h)

  -- A standard gamepad was at rest for 120 ms, and there has been one at each sample since.
  pub data HasRested : History → Type 0 where
    rested :
        {o : Option GamepadSnapshot} {t now : ℕ} {h : History}
        → AtRestSince t ((o, now) ∷ h)
        → t + 120 ≤ now
        → HasRested ((o, now) ∷ h)
    since :
        {g : GamepadSnapshot} {now : ℕ} {h : History}
        → is_standard_gamepad g ≡ true
        → HasRested h
        → HasRested ((some g, now) ∷ h)

  abbrev ArmedOk : History → Bool → Option ℕ → Type 0
  ArmedOk h true o = HasRested h
  ArmedOk h false none = Unit
  ArmedOk h false (some t) = AtRestSince t h

  abbrev Remembers : History → NavigationInputModel → Type 0
  Remembers h m = ArmedOk h m.armed m.neutral_since × (m.neutral_delay ≡ 120)

  since-AtRest :
      (g : GamepadSnapshot) (now : ℕ) (h : History) (neutral : Bool) (o : Option ℕ)
      → is_standard_gamepad g ≡ true
      → is_neutral limits g ≡ neutral
      → ArmedOk h false o
      → ArmedOk ((some g, now) ∷ h) false (since_neutral neutral now o)
  since-AtRest g now h false o s e k = tt
  since-AtRest g now h true none s e k = starts s e
  since-AtRest g now h true (some t) s e k = goes_on s e k

  due-HasRested :
      (g : GamepadSnapshot) (now : ℕ) (h : History) (o : Option ℕ)
      → ArmedOk ((some g, now) ∷ h) false o
      → ArmedOk ((some g, now) ∷ h) (is_due now 120 o) o
  due-HasRested g now h none k = tt
  due-HasRested g now h (some t) k = elim (Bool-cases (leb (t + 120) now)) [
    | inl e ↦ rw e (rested k (ground arith))
    | inr e ↦ rw e k
  ]

  arm-ArmedOk :
      (g : GamepadSnapshot) (now : ℕ) (h : History) (a : Bool) (o : Option ℕ)
      → is_standard_gamepad g ≡ true
      → ArmedOk h a o
      → ArmedOk
          ((some g, now) ∷ h)
          (a || is_due now 120 (since_neutral (is_neutral limits g) now o))
          (if a then o else since_neutral (is_neutral limits g) now o)
  arm-ArmedOk g now h true o s k = since s k
  arm-ArmedOk g now h false o s k =
      due-HasRested g now h _ (since-AtRest g now h (is_neutral limits g) o s refl k)

  arm-Remembers :
      (g : GamepadSnapshot) (now : ℕ) (h : History) (m : NavigationInputModel)
      → is_standard_gamepad g ≡ true
      → Remembers h m
      → Remembers ((some g, now) ∷ h) (arm (is_neutral limits g) now m)
  arm-Remembers g now h m s (k, delay) =
      let (armed, since_at, same_delay) = arm_fields (is_neutral limits g) now m in
      let ok = arm-ArmedOk g now h m.armed m.neutral_since s k in
      (rw (armed, since_at, delay) ok, same_delay ∙ delay)

  -- The actions of a step, and the model behind it.
  abbrev Steps : History → NavigationUpdate × NavigationInputModel → Type 0
  Steps h (u, m) = ((OnlyDirections u.actions) ⊎ HasRested h) × Remembers h m

  Remembers-Keeps :
      (h : History) (m n : NavigationInputModel) (pressed : List Bool)
      → Remembers h m
      → Keeps m n
      → Remembers h (record n { previous_buttons = pressed })
  Remembers-Keeps h m n pressed (k, delay) (armed, since_at, same_delay) =
      (rw (armed, since_at) k, same_delay ∙ delay)

  actions-Steps :
      (g : GamepadSnapshot) (now : ℕ) (h : History) (m : NavigationInputModel) (allowed : Bool)
      → m.armed ≡ allowed
      → Remembers h m
      → OnlyDirections (actions_for limits g (pressed_buttons limits g) now allowed m).0
        ⊎ HasRested h
  actions-Steps g now h m false e k =
      inl (actions_for-OnlyDirections g (pressed_buttons limits g) now m)
  actions-Steps g now h m true e (k, delay) = inr (subst (λ a. ArmedOk h a m.neutral_since) e k)

  standard-Steps :
      (g : GamepadSnapshot) (now : ℕ) (h : History) (m : NavigationInputModel)
      → is_standard_gamepad g ≡ true
      → Remembers h m
      → Steps ((some g, now) ∷ h) (update_standard limits g now m)
  unfolding update_standard
  standard-Steps g now h m s k =
      let n = arm (is_neutral limits g) now m in
      let later = arm-Remembers g now h m s k in
      elim (Bool-cases (n.armed || n.direction_before_neutral)) [
        | inl e ↦ rw e (
          actions-Steps g now ((some g, now) ∷ h) n n.armed refl later,
          Remembers-Keeps ((some g, now) ∷ h) n
              (actions_for limits g (pressed_buttons limits g) now n.armed n).1
              (pressed_buttons limits g) later
              (actions_for-Keeps g (pressed_buttons limits g) now n.armed n),
        )
        | inr e ↦ rw e (inl tt, later)
      ]

  update-Steps :
      (o : Option GamepadSnapshot) (now : ℕ) (h : History) (m : NavigationInputModel)
      → Remembers h m
      → Steps ((o, now) ∷ h) (update limits o now m)
  unfolding update
  update-Steps none now h m (k, delay) = (inl tt, (tt, delay))
  update-Steps (some g) now h m k = elim (Bool-cases (is_standard_gamepad g)) [
    | inl s ↦ rw s (standard-Steps g now h m s k)
    | inr s ↦ rw s (inl tt, (tt, k.1))
  ]

  -- The model behind a history.
  unfoldable pub run : Bool → History → NavigationInputModel
  unfolding update
  run allow [] = initial allow
  run allow ((o, now) ∷ h) = (update limits o now (run allow h)).1

  run-Remembers : (allow : Bool) (h : History) → Remembers h (run allow h)
  unfolding run
  run-Remembers allow [] = (tt, refl)
  run-Remembers allow ((o, now) ∷ h) =
      (update-Steps o now h (run allow h) (run-Remembers allow h)).1

  -- Whatever a new model has been told: the actions of an update are directions only, or a standard
  -- gamepad had no button down and no axis away from its centre at any sample of a time of 120 ms or
  -- more, and there has been a standard gamepad at each sample since.
  pub update-HasRested :
      (allow : Bool) (o : Option GamepadSnapshot) (now : ℕ) (h : History)
      → OnlyDirections (update limits o now (run allow h)).0.actions ⊎ HasRested ((o, now) ∷ h)
  update-HasRested allow o now h = (update-Steps o now h (run allow h) (run-Remembers allow h)).0
