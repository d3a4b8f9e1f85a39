-- ===== src/Immersive/Neutral.antt =====
-- When the gate of immersive-controls.ts opens.
use retrom.Prelude.{
  ℕ, ◌+◌, ◌≤◌, ◌≡◌, refl, Bool, true, false, List, [], ◌∷◌, Option, none, some, arith,
}
use retrom.Immersive.Buttons.{Time}
use retrom.Immersive.Chord.{update_gate}

-- The controls have been neutral since time `t` at the least. The last sample stands first.
pub data NeutralSince (t : ℕ) : List (Bool × Time) → Type 0 where
  starts : {h : List (Bool × Time)} → NeutralSince t ((true, some t) ∷ h)
  goes_on :
      {now : Time} {h : List (Bool × Time)} → NeutralSince t h → NeutralSince t ((true, now) ∷ h)

-- `neutralSinceMs` behind the samples.
unfoldable pub run_gate : List (Bool × Time) → Option Time
unfolding update_gate
run_gate [] = none
run_gate ((neutral, now) ∷ h) = (update_gate neutral now (run_gate h)).1

abbrev SinceOk : List (Bool × Time) → Option Time → Type 0
SinceOk h none = Unit
SinceOk h (some none) = Unit
SinceOk h (some (some t)) = NeutralSince t h

update_gate-SinceOk :
    (neutral : Bool) (now : Time) (h : List (Bool × Time)) (since : Option Time)
    → SinceOk h since
    → SinceOk ((neutral, now) ∷ h) (update_gate neutral now since).1
unfolding update_gate
update_gate-SinceOk false now h since k = tt
update_gate-SinceOk true none h none k = tt
update_gate-SinceOk true (some t) h none k = starts
update_gate-SinceOk true now h (some none) k = tt
update_gate-SinceOk true now h (some (some t)) k = goes_on k

run_gate-SinceOk : (h : List (Bool × Time)) → SinceOk h (run_gate h)
unfolding run_gate
run_gate-SinceOk [] = tt
run_gate-SinceOk ((neutral, now) ∷ h) =
    update_gate-SinceOk neutral now h (run_gate h) (run_gate-SinceOk h)

since-opens :
    (neutral : Bool) (now : Time) (h : List (Bool × Time)) (since : Option Time)
    → SinceOk h since
    → (update_gate neutral now since).0 ≡ true
    → (t : ℕ) × (n : ℕ) × (now ≡ some n) × (t + 120 ≤ n) × NeutralSince t ((neutral, now) ∷ h)
unfolding update_gate
since-opens false now h since k e = cc e
since-opens true none h none k e = cc e
since-opens true (some n) h none k e = ground arith
since-opens true now h (some none) k e = cc e
since-opens true none h (some (some t)) k e = cc e
since-opens true (some n) h (some (some t)) k e = (t, n, refl, ground arith, goes_on k)

-- Whatever samples the gate has been told since it was made, when it opens, the controls have been
-- neutral at every sample since one 120 ms ago or more.
pub gate-IsNeutral :
    (neutral : Bool) (now : Time) (h : List (Bool × Time))
    → (update_gate neutral now (run_gate h)).0 ≡ true
    → (t : ℕ) × (n : ℕ) × (now ≡ some n) × (t + 120 ≤ n) × NeutralSince t ((neutral, now) ∷ h)
gate-IsNeutral neutral now h = since-opens neutral now h (run_gate h) (run_gate-SinceOk h)
