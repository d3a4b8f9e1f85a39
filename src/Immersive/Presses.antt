-- ===== src/Immersive/Presses.antt =====
-- What the detector of immersive-controls.ts puts out for a press of one button and for two chords.
use retrom.Prelude.{
  ℕ, ◌+◌, ◌≤◌, ◌≡◌, refl, ap, ◌∙◌, Bool, true, false, List, [], ◌∷◌, Option, none, some, ltb, leb,
  arith,
}
use retrom.Immersive.Buttons.{
  ReservedButton, select_button, start_button, PerButton, ReservedButtonOutput, Detector, initial,
  quiet, Time,
}
use retrom.Immersive.Chord.{update, advance}

-- The outputs for the samples of the buttons, the first one first.
unfoldable pub outputs : Detector → List (PerButton Bool × ℕ) → List ReservedButtonOutput
unfolding update
outputs d [] = []
outputs d ((buttons, now) ∷ rest) =
    let (out, d2) = update buttons (some now) d in out ∷ outputs d2 rest

abbrev pub neither : PerButton Bool
neither = record { select = false; start = false }

abbrev pub both : PerButton Bool
both = record { select = true; start = true }

abbrev pub only : ReservedButton → PerButton Bool
only select_button = record { select = true; start = false }
only start_button = record { select = false; start = true }

-- The output of a button, and that of the menu.
abbrev pub puts_out : ReservedButton → Bool → ReservedButtonOutput
puts_out select_button b = record { open_menu = false; select_output = b; start_output = false }
puts_out start_button b = record { open_menu = false; select_output = false; start_output = b }

-- A new detector is told that one button alone goes down at `a`, is still down at `m`, and is up at
-- `b`. It puts the button out at `m` when that is 100 ms or more behind `a`, and at `b` when that
-- is less than 100 ms behind `a`; never at `a`, and never the other button or the menu.
pub press_of_one :
    (button : ReservedButton) (a m b : ℕ)
    → a ≤ m
    → m ≤ b
    → outputs initial ((only button, a) ∷ (only button, m) ∷ (neither, b) ∷ [])
      ≡ puts_out button false
        ∷ puts_out button (leb (a + 100) m)
        ∷ puts_out button (ltb b (a + 100))
        ∷ []
unfolding outputs update advance
press_of_one select_button a m b h k = ground arith
press_of_one start_button a m b h k = ground arith

-- The detector while one button waits for the other, while both are held, and behind the first
-- chord.
abbrev since : ReservedButton → ℕ → PerButton (Option Time)
since select_button t = record { select = some (some t); start = none }
since start_button t = record { select = none; start = some (some t) }

abbrev waiting : ReservedButton → ℕ → Bool → Option Time → Detector
waiting button t second completed = record {
  previous = only button;
  down_at = since button t;
  candidate = some (record { first = button; started_at = some t; second_chord = second });
  chord = none;
  first_completed = completed;
  last_now = some t;
}

abbrev holding : Bool → ℕ → Detector
holding second t = record initial { previous = both; chord = some second; last_now = some t }

abbrev completed : ℕ → Detector
completed r = record initial { first_completed = some (some r); last_now = some r }

update-initial :
    (button : ReservedButton) (a : ℕ)
    → update (only button) (some a) initial ≡ (quiet, waiting button a false none)
unfolding update advance
update-initial select_button a = ground arith
update-initial start_button a = ground arith

update-waiting_first :
    (button : ReservedButton) (a b : ℕ)
    → a ≤ b
    → b ≤ a + 100
    → update both (some b) (waiting button a false none) ≡ (quiet, holding false b)
unfolding update advance
update-waiting_first select_button a b h k = ground arith
update-waiting_first start_button a b h k = ground arith

update-holding :
    (b r : ℕ) → b ≤ r → update neither (some r) (holding false b) ≡ (quiet, completed r)
unfolding update advance
update-holding b r h = ground arith

update-completed :
    (button : ReservedButton) (r c : ℕ)
    → r + 60 ≤ c
    → c ≤ r + 650
    → update (only button) (some c) (completed r) ≡ (quiet, waiting button c true (some (some r)))
unfolding update advance
update-completed select_button r c h k = ground arith
update-completed start_button r c h k = ground arith

update-waiting_second :
    (button : ReservedButton) (r c d : ℕ)
    → c ≤ d
    → d ≤ c + 100
    → update both (some d) (waiting button c true (some (some r)))
      ≡ (record quiet { open_menu = true }, holding true d)
unfolding update advance
update-waiting_second select_button r c d h k = ground arith
update-waiting_second start_button r c d h k = ground arith

outputs-nil : (d : Detector) → outputs d [] ≡ []
unfolding outputs
outputs-nil d = refl

outputs-step :
    (buttons : PerButton Bool) (now : ℕ) (d : Detector) (rest : List (PerButton Bool × ℕ))
    {d2 : Detector} {out : ReservedButtonOutput} {outs : List ReservedButtonOutput}
    → update buttons (some now) d ≡ (out, d2)
    → outputs d2 rest ≡ outs
    → outputs d ((buttons, now) ∷ rest) ≡ out ∷ outs
unfolding outputs
outputs-step buttons now d rest {out} e k =
    ap (λ r. r.0 ∷ outputs r.1 rest) e ∙ ap (λ os. out ∷ os) k

-- A new detector is told of two chords: in each, one button (either) goes down and the other
-- within 100 ms, and the second chord begins between 60 and 650 ms behind the release of the
-- first. It opens the menu at the end of the second chord and puts out nothing before.
pub double_chord-opens :
    (first second : ReservedButton) (a b r c d : ℕ)
    → a ≤ b
    → b ≤ a + 100
    → b ≤ r
    → r + 60 ≤ c
    → c ≤ r + 650
    → c ≤ d
    → d ≤ c + 100
    → outputs initial
        ((only first, a) ∷ (both, b) ∷ (neither, r) ∷ (only second, c) ∷ (both, d) ∷ [])
      ≡ quiet ∷ quiet ∷ quiet ∷ quiet ∷ record quiet { open_menu = true } ∷ []
double_chord-opens first second a b r c d e1 e2 e3 e4 e5 e6 e7 =
    outputs-step _ _ _ _ (update-initial first a) (
      outputs-step _ _ _ _ (update-waiting_first first a b e1 e2) (
        outputs-step _ _ _ _ (update-holding b r e3) (
          outputs-step _ _ _ _ (update-completed second r c e4 e5)
            (outputs-step _ _ _ _ (update-waiting_second second r c d e6 e7) (outputs-nil _)))))
