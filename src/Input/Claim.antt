-- ===== src/Input/Claim.antt =====
-- web/features/immersive/input-model.ts: the class GamepadClaimModel.
use retrom.Prelude.{
  ℕ, Bool, true, false, not, ◌&&◌, ◌||◌, List, [], ◌∷◌, Option, none, some, leb, ◌==◌,
  if◌then◌else◌, any,
}
use retrom.Input.Gamepad.{Thresholds, GamepadSnapshot, is_standard_gamepad, pressed_buttons}

-- `this.previous`: a map from indices, in the order of insertion.
abbrev pub Pressed : Type 0
Pressed = List (ℕ × List Bool)

abbrev pub pressed_of : ℕ → Pressed → List Bool
pressed_of i [] = []
pressed_of i ((j, bs) ∷ ps) = if j == i then bs else pressed_of i ps

abbrev pub set_pressed : ℕ → List Bool → Pressed → Pressed
set_pressed i bs [] = (i, bs) ∷ []
set_pressed i bs ((j, cs) ∷ ps) = if j == i then (j, bs) ∷ ps else (j, cs) ∷ set_pressed i bs ps

abbrev pub has_index : ℕ → List GamepadSnapshot → Bool
has_index i gamepads = any (λ g. g.index == i) gamepads

-- The loop that forgets gamepads.
abbrev pub keep_connected : List GamepadSnapshot → Pressed → Pressed
keep_connected gamepads [] = []
keep_connected gamepads ((j, bs) ∷ ps) =
    if has_index j gamepads
    then (j, bs) ∷ keep_connected gamepads ps
    else keep_connected gamepads ps

-- `[...gamepads].sort(…)`, by index; it is stable.
unfoldable pub insert_gamepad : GamepadSnapshot → List GamepadSnapshot → List GamepadSnapshot
insert_gamepad g [] = g ∷ []
insert_gamepad g (h ∷ hs) = if leb g.index h.index then g ∷ h ∷ hs else h ∷ insert_gamepad g hs

unfoldable pub sort_gamepads : List GamepadSnapshot → List GamepadSnapshot
unfolding insert_gamepad
sort_gamepads [] = []
sort_gamepads (g ∷ gs) = insert_gamepad g (sort_gamepads gs)

pub record ClaimResult : Type 0 where
  pub claimed_index : Option ℕ
  pub unsupported_edge : Bool

-- `pressed.some((value, index) => value && !previous[index])`.
unfoldable pub has_edge : List Bool → List Bool → Bool
has_edge [] previous = false
has_edge (b ∷ bs) [] = b || has_edge bs []
has_edge (b ∷ bs) (c ∷ cs) = b && not c || has_edge bs cs

abbrev pub claim : Bool → ℕ → Option ℕ → Option ℕ
claim true i none = some i
claim true i (some j) = some j
claim false i claimed = claimed

module _ (limits : Thresholds) where
  -- `reset`: the map of the gamepads, a later one in place of an earlier one of its index.
  abbrev pub reset_from : Pressed → List GamepadSnapshot → Pressed
  reset_from previous [] = previous
  reset_from previous (g ∷ gs) =
      reset_from (set_pressed g.index (pressed_buttons limits g) previous) gs

  abbrev pub reset_claim : List GamepadSnapshot → Pressed
  reset_claim gamepads = reset_from [] gamepads

  -- A round of the loop of `update`.
  unfoldable pub claim_round : GamepadSnapshot → ClaimResult × Pressed → ClaimResult × Pressed
  unfolding has_edge is_standard_gamepad
  claim_round g (result, previous) =
      let pressed = pressed_buttons limits g in
      let edge = has_edge pressed (pressed_of g.index previous) in
      (
        record {
          claimed_index = claim (edge && is_standard_gamepad g) g.index result.claimed_index;
          unsupported_edge = result.unsupported_edge || edge && not (is_standard_gamepad g);
        },
        set_pressed g.index pressed previous,
      )

  unfoldable pub claim_rounds : List GamepadSnapshot → ClaimResult × Pressed → ClaimResult × Pressed
  unfolding claim_round
  claim_rounds [] state = state
  claim_rounds (g ∷ gs) state = claim_rounds gs (claim_round g state)

  -- `update`.
  unfoldable pub update_claim : List GamepadSnapshot → Pressed → ClaimResult × Pressed
  unfolding sort_gamepads claim_rounds
  update_claim gamepads previous =
      let (result, pressed) =
        claim_rounds (sort_gamepads gamepads)
          (record { claimed_index = none; unsupported_edge = false }, previous) in
      (result, keep_connected gamepads pressed)
