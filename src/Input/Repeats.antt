-- ===== src/Input/Repeats.antt =====
-- When the model of input-model.ts puts out a direction that is held.
use retrom.Prelude.{
  ℕ, ◌+◌, ◌≡◌, refl, sym, ap, ◌∙◌, subst, Bool, true, false, ◌||◌, List, [], ◌∷◌, ◌++◌, Option,
  none, some, leb, if◌then◌else◌, All, Bool-cases, inl, inr, arith,
}
use retrom.Input.Gamepad.{
  Thresholds, GamepadSnapshot, is_standard_gamepad, pressed_buttons, is_neutral,
}
use retrom.Input.Directions.{Direction, left, right, up, down, same_direction, next_direction}
use retrom.Input.Navigation.{
  JumpAction, ButtonAction, direction, button, jump, NavigationAction, NavigationInputModel,
  NavigationUpdate, push, is_direction, move_direction, jump_for, held_button, held_jump,
  rising_button_action, actions_for, arm, update_standard, update, is_due, since_neutral,
}

same_direction_refl : (d : Direction) → same_direction d d ≡ true
same_direction_refl left = refl
same_direction_refl right = refl
same_direction_refl up = refl
same_direction_refl down = refl

-- The directions among some actions.
abbrev pub directions : List NavigationAction → List Direction
directions [] = []
directions (direction d ∷ actions) = d ∷ directions actions
directions (button b ∷ actions) = directions actions
directions (jump j ∷ actions) = directions actions

abbrev as_list : Option Direction → List Direction
as_list none = []
as_list (some d) = d ∷ []

-- The button and the jump of an update are no directions.
directions-push :
    (o : Option Direction) (b : Option ButtonAction) (j : Option JumpAction)
    → directions (push direction o ++ push button b ++ push jump j) ≡ as_list o
directions-push none none none = refl
directions-push none none (some j) = refl
directions-push none (some b) none = refl
directions-push none (some b) (some j) = refl
directions-push (some d) none none = refl
directions-push (some d) none (some j) = refl
directions-push (some d) (some b) none = refl
directions-push (some d) (some b) (some j) = refl

-- Directions with the time at which they are put out.
abbrev pub at_time : ℕ → List Direction → List (ℕ × Direction)
at_time now [] = []
at_time now (d ∷ ds) = (now, d) ∷ at_time now ds

-- What a jump leaves as it is.
abbrev SameMove : NavigationInputModel → NavigationInputModel → Type 0
SameMove m n =
    (n.direction ≡ m.direction) × (n.next_repeat_at ≡ m.next_repeat_at) × (n.armed ≡ m.armed)

jump_for-SameMove :
    (o : Option JumpAction) (now : ℕ) (m : NavigationInputModel) → SameMove m (jump_for o now m).1
jump_for-SameMove none now m = (refl, refl, refl)
jump_for-SameMove (some j) now m = ground arith

move_direction-armed :
    (o : Option Direction) (now : ℕ) (m : NavigationInputModel)
    → (move_direction o now m).1.armed ≡ m.armed
unfolding move_direction
move_direction-armed none now m = refl
move_direction-armed (some d) now m = ground arith

arm_armed :
    (neutral : Bool) (now : ℕ) (m : NavigationInputModel) → m.armed ≡ true → arm neutral now m ≡ m
unfolding arm
arm_armed neutral now m e =
    ap
      (λ b.
        if b
        then m
        else if is_due now m.neutral_delay (since_neutral neutral now m.neutral_since)
        then record m {
          neutral_since = since_neutral neutral now m.neutral_since;
          armed = true;
          direction_before_neutral = false;
        }
        else record m { neutral_since = since_neutral neutral now m.neutral_since })
      e

module _ (limits : Thresholds) (d : Direction) where
  -- A standard gamepad that points in the direction, whichever came before.
  abbrev pub Holds : GamepadSnapshot × ℕ → Type 0
  Holds (g, now) =
      (is_standard_gamepad g ≡ true)
      × ((previous : Option Direction) → next_direction limits g previous ≡ some d)

  -- What an update of an armed model does by its direction.
  abbrev Moves : ℕ → NavigationInputModel → NavigationUpdate × NavigationInputModel → Type 0
  Moves now m (u, n) =
      (directions u.actions ≡ as_list (move_direction (some d) now m).0)
      × SameMove (move_direction (some d) now m).1 n

  actions_for-Moves :
      (g : GamepadSnapshot) (pressed : List Bool) (now : ℕ) (m : NavigationInputModel)
      → next_direction limits g m.direction ≡ some d
      → (directions (actions_for limits g pressed now true m).0
          ≡ as_list (move_direction (some d) now m).0)
        × SameMove (move_direction (some d) now m).1 (actions_for limits g pressed now true m).1
  unfolding actions_for held_jump
  actions_for-Moves g pressed now m e = rw e (
    directions-push (move_direction (some d) now m).0
        (rising_button_action pressed (move_direction (some d) now m).1.previous_buttons)
        (jump_for (held_button pressed) now (move_direction (some d) now m).1).0,
    jump_for-SameMove (held_button pressed) now (move_direction (some d) now m).1,
  )

  update-Moves :
      (g : GamepadSnapshot) (now : ℕ) (m : NavigationInputModel)
      → Holds (g, now)
      → m.armed ≡ true
      → Moves now m (update limits (some g) now m)
  unfolding update update_standard
  update-Moves g now m (standard, points) armed =
      rw (standard, arm_armed (is_neutral limits g) now m armed)
        (subst
          (λ allowed.
            (directions
                (if allowed || m.direction_before_neutral
                  then actions_for limits g (pressed_buttons limits g) now allowed m
                  else ([], m)).0
              ≡ as_list (move_direction (some d) now m).0)
            × SameMove (move_direction (some d) now m).1
                (if allowed || m.direction_before_neutral
                  then actions_for limits g (pressed_buttons limits g) now allowed m
                  else ([], m)).1)
          (sym armed) (actions_for-Moves g (pressed_buttons limits g) now m (points m.direction)))

  -- A direction that was not there, and one that is held.
  free_move :
      (now : ℕ) (m : NavigationInputModel)
      → m.direction ≡ none
      → (as_list (move_direction (some d) now m).0 ≡ d ∷ [])
        × ((move_direction (some d) now m).1.direction ≡ some d)
        × ((move_direction (some d) now m).1.next_repeat_at ≡ now + 350)
  unfolding move_direction
  free_move now m e =
      let k : is_direction d m.direction ≡ false = ap (is_direction d) e in rw k (refl, refl, refl)

  held_move :
      (now : ℕ) (m : NavigationInputModel)
      → m.direction ≡ some d
      → (as_list (move_direction (some d) now m).0
          ≡ (if leb m.next_repeat_at now then d ∷ [] else []))
        × ((move_direction (some d) now m).1.direction ≡ some d)
        × ((move_direction (some d) now m).1.next_repeat_at
            ≡ (if leb m.next_repeat_at now then now + 120 else m.next_repeat_at))
  unfolding move_direction
  held_move now m e =
      let k : is_direction d m.direction ≡ true = ap (is_direction d) e ∙ same_direction_refl d in
      elim (Bool-cases (leb m.next_repeat_at now)) [
        | inl c ↦ rw (k, c) (refl, e, refl)
        | inr c ↦ rw (k, c) (refl, e, refl)
      ]

  -- The directions that a model puts out, with their times, for gamepads in the order of theirs.
  unfoldable pub output_times :
      List (GamepadSnapshot × ℕ) → NavigationInputModel → List (ℕ × Direction)
  unfolding update
  output_times [] m = []
  output_times ((g, now) ∷ h) m =
      let (u, n) = update limits (some g) now m in
      at_time now (directions u.actions) ++ output_times h n

  -- The direction at the times from the one that is due on, each 120 ms behind the one before it at
  -- least.
  unfoldable pub paced : ℕ → List (GamepadSnapshot × ℕ) → List (ℕ × Direction)
  paced due [] = []
  paced due ((g, now) ∷ h) =
      let next = paced (now + 120) h in
      let later = paced due h in if leb due now then (now, d) ∷ next else later

  held-paced :
      (h : List (GamepadSnapshot × ℕ)) (m : NavigationInputModel)
      → All Holds h
      → m.armed ≡ true
      → m.direction ≡ some d
      → output_times h m ≡ paced m.next_repeat_at h
  unfolding output_times paced
  held-paced [] m holds armed same = refl
  held-paced ((g, now) ∷ h) m (holds, later) armed same =
      let (out, (pointed, due, still)) = update-Moves g now m holds armed in
      let (is_out, at, next) = held_move now m same in
      let rest =
        held-paced h (update limits (some g) now m).1 later
          (still ∙ move_direction-armed (some d) now m ∙ armed) (pointed ∙ at) in
      elim (Bool-cases (leb m.next_repeat_at now)) [
        | inl c ↦
            rw (out ∙ is_out, c)
              (ap (λ ts. (now, d) ∷ ts) (rest ∙ ap (λ n. paced n h) (due ∙ next ∙ rw c refl)))
        | inr c ↦ rw (out ∙ is_out, c) (rest ∙ ap (λ n. paced n h) (due ∙ next ∙ rw c refl))
      ]

  -- An armed model without a direction is told of standard gamepads that all point in one direction.
  -- It puts that direction out at the first sample, then at the first one 350 ms or more behind that,
  -- and then at each first one 120 ms or more behind the last, and no direction else, whatever the
  -- order of their times.
  pub output_times-paced :
      (g : GamepadSnapshot) (now : ℕ) (h : List (GamepadSnapshot × ℕ)) (m : NavigationInputModel)
      → All Holds ((g, now) ∷ h)
      → m.armed ≡ true
      → m.direction ≡ none
      → output_times ((g, now) ∷ h) m ≡ (now, d) ∷ paced (now + 350) h
  unfolding output_times
  output_times-paced g now h m (holds, later) armed free =
      let (out, (pointed, due, still)) = update-Moves g now m holds armed in
      let (is_out, at, next) = free_move now m free in
      rw (out, is_out)
        (ap (λ ts. (now, d) ∷ ts)
          (held-paced h (update limits (some g) now m).1 later
              (still ∙ move_direction-armed (some d) now m ∙ armed) (pointed ∙ at)
            ∙ ap (λ n. paced n h) (due ∙ next)))
