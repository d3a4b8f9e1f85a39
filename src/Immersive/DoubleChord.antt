-- ===== src/Immersive/DoubleChord.antt =====
-- When the detector of immersive-controls.ts opens the menu.
use retrom.Prelude.{
  ℕ, ◌+◌, ◌≡◌, refl, Bool, true, false, not, ◌||◌, [], ◌∷◌, Option, none, some, ltb, Bool-cases,
  Option-cases, subst, sym, ◌⊎◌, inl, inr, if◌then◌else◌, arith,
}
use retrom.Immersive.Buttons.{
  Time, earlier, ReservedButton, select_button, start_button, PerButton, at, other,
  ReservedButtonOutput, Candidate, Detector, initial,
}
use retrom.Immersive.Chord.{
  update, advance, reset_when_late, seek_chord, with_candidate, single_buttons, expired,
  new_candidate, candidate_of, rising_edge, falling_edge, reduce_gesture, completes, recognized,
  finish_chord_when_released, update_down_times,
}
use retrom.Immersive.History.{Sample, History, last_buttons, Chorded, held, run, IsDoubleChord}
use retrom.Immersive.Memory.{
  CompletedOk, CandidateOk, ChordOk, Remembers, CompletedOk-later, CandidateOk-later,
  Remembers-later, released-CompletedOk, candidate_of-CandidateOk, expire-CandidateOk,
}

-- The result of the step at a sample.
abbrev Follows : Sample → History → ReservedButtonOutput × Detector → Type 0
Follows f h (out, d) = (out.open_menu ≡ true → IsDoubleChord (f ∷ h)) × Remembers (f ∷ h) d

-- A recognized chord has both buttons down.
completes_both :
    (previous current : PerButton Bool) (first : ReservedButton) (late : Bool)
    → not (not (at (rising_edge previous current) (other first)) || not (at current first) || late)
      ≡ true
    → (current.select ≡ true) × (current.start ≡ true) × (late ≡ false)
completes_both previous current select_button late e = ground arith
completes_both previous current start_button late e = ground arith

module _ (f : Sample) (h : History) where
  finish-Follows :
      (second : Bool) (d : Detector)
      → Remembers h d
      → Chorded h
      → Follows f h (finish_chord_when_released second f.buttons f.time d)
  finish-Follows second d k chord = elim (Bool-cases (f.buttons.select || f.buttons.start)) [
    | inl e ↦ rw e (λ o. cc o, Remembers-later f h d k)
    | inr e ↦ rw e (
      λ o. cc o,
      (
        released-CompletedOk f h second d.first_completed e chord k.0,
        CandidateOk-later f h _ k.1,
        tt,
      ),
    )
  ]

  single-Follows :
      (falling : PerButton Bool) (d : Detector)
      → CompletedOk h d.first_completed
      → CandidateOk (f ∷ h) d.candidate
      → d.chord ≡ none
      → Follows f h (single_buttons f.buttons falling f.time d)
  single-Follows falling d k j e =
      (λ o. cc o, (CompletedOk-later f h _ k, expire-CandidateOk f h d.candidate j, rw e tt))

  cleared-CompletedOk :
      (second : Bool) (o : Option Time)
      → CompletedOk h o
      → CompletedOk (f ∷ h) (if second then none else o)
  cleared-CompletedOk true o k = tt
  cleared-CompletedOk false o k = CompletedOk-later f h o k

  -- The second chord is recognized at a time only.
  abbrev SecondHasTime : Option Candidate → Type 0
  SecondHasTime none = Unit
  SecondHasTime (some c) = c.second_chord ≡ true → (n : ℕ) × (f.time ≡ some n)

  recognized-Follows :
      (previous : PerButton Bool) (c : Candidate) (d : Detector)
      → SecondHasTime (some c)
      → completes f.buttons (rising_edge previous f.buttons) f.time c ≡ true
      → CompletedOk h d.first_completed
      → CandidateOk (f ∷ h) (some c)
      → Follows f h (recognized c d)
  recognized-Follows previous c d timed e k j =
      let (select, start, in_time) = completes_both previous f.buttons c.first _ e in
      (
        λ second.
            let (n, at_n) = timed second in
            let (t, at_t, p) = j second in
            let within : ltb (t + 100) n ≡ false = rw (at_t, at_n) at in_time in
            (select, start, (n, t, at_n, p, ground arith)),
        (cleared-CompletedOk c.second_chord d.first_completed k, tt, held select start),
      )

  with_candidate-Follows :
      (previous falling : PerButton Bool) (d : Detector) (o : Option Candidate)
      → SecondHasTime o
      → CompletedOk h d.first_completed
      → CandidateOk (f ∷ h) o
      → d.chord ≡ none
      → Follows f h (with_candidate f.buttons (rising_edge previous f.buttons) falling f.time d o)
  with_candidate-Follows previous falling d none timed k j e =
      single-Follows falling (record d { candidate = none }) k j e
  with_candidate-Follows previous falling d (some c) timed k j e =
      elim (Bool-cases (completes f.buttons (rising_edge previous f.buttons) f.time c)) [
        | inl done ↦ rw done (recognized-Follows previous c d timed done k j)
        | inr not_done ↦
            rw not_done (single-Follows falling (record d { candidate = some c }) k j e)
      ]

  seek-Follows :
      (previous falling : PerButton Bool) (d : Detector)
      → SecondHasTime
          (candidate_of (rising_edge previous f.buttons) f.time d.first_completed d.candidate)
      → (previous ≡ last_buttons h) ⊎ (d.first_completed ≡ none)
      → Remembers h d
      → d.chord ≡ none
      → Follows f h (seek_chord f.buttons (rising_edge previous f.buttons) falling f.time d)
  seek-Follows previous falling d timed known (completed, candidate, chord) e =
      with_candidate-Follows previous falling d _ timed completed
        (candidate_of-CandidateOk f h previous d.first_completed d.candidate known completed
          candidate)
        e

  SecondHasTime-at : (n : ℕ) → f.time ≡ some n → (o : Option Candidate) → SecondHasTime o
  SecondHasTime-at n at_n none = tt
  SecondHasTime-at n at_n (some c) = λ _. (n, at_n)

  reduce-Follows :
      (previous falling : PerButton Bool) (n : ℕ) (d : Detector) (chord : Option Bool)
      → f.time ≡ some n
      → previous ≡ last_buttons h
      → Remembers h d
      → d.chord ≡ chord
      → Follows f h
          (reduce_gesture f.buttons (rising_edge previous f.buttons) falling f.time d chord)
  reduce-Follows previous falling n d (some second) at_n known k e =
      finish-Follows second d k (subst (ChordOk h) e k.2)
  reduce-Follows previous falling n d none at_n known k e =
      elim (Bool-cases (expired f.time d.first_completed)) [
        | inl x ↦ rw x (
            seek-Follows previous falling (record d { first_completed = none })
              (SecondHasTime-at n at_n _) (inr refl) (tt, k.1, k.2) e)
        | inr x ↦ rw x (seek-Follows previous falling d (SecondHasTime-at n at_n _) (inl known) k e)
      ]

  advance-Follows :
      (n : ℕ) (d : Detector)
      → f.time ≡ some n
      → d.previous ≡ last_buttons h
      → Remembers h d
      → Follows f h (advance f.buttons f.time d)
  unfolding advance
  advance-Follows n d at_n known k =
      reduce-Follows d.previous (falling_edge d.previous f.buttons) n
        (update_down_times (rising_edge d.previous f.buttons) f.time
          (record d { last_now = f.time }))
        d.chord at_n known k refl

  new_candidate-SecondHasTime :
      (o : Option ReservedButton) → SecondHasTime (new_candidate f.time none o)
  new_candidate-SecondHasTime none = tt
  new_candidate-SecondHasTime (some b) = λ e. cc e

  -- Behind a reset, at any time.
  initial-Follows : Follows f h (advance f.buttons f.time initial)
  unfolding advance
  initial-Follows =
      seek-Follows initial.previous (falling_edge initial.previous f.buttons)
        (update_down_times (rising_edge initial.previous f.buttons) f.time
          (record initial { last_now = f.time }))
        (new_candidate-SecondHasTime _) (inr refl) (tt, tt, tt) refl

  reset-cases :
      (d : Detector)
      → (reset_when_late f.time d ≡ initial)
        ⊎ ((reset_when_late f.time d ≡ d) × ((n : ℕ) × (f.time ≡ some n)))
  reset-cases d = elim (Option-cases f.time) [
    | inl at_nan ↦ inl (rw at_nan refl)
    | inr (n, at_n) ↦ elim (Bool-cases (earlier (some n) d.last_now)) [
      | inl e ↦ inl (rw (at_n, e) refl)
      | inr e ↦ inr (rw (at_n, e) refl, (n, at_n))
    ]
  ]

  update-Follows :
      (d : Detector)
      → d.previous ≡ last_buttons h
      → Remembers h d
      → Follows f h (update f.buttons f.time d)
  unfolding update
  update-Follows d known k = elim (reset-cases d) [
    | inl e ↦ subst (λ x. Follows f h (advance f.buttons f.time x)) (sym e) initial-Follows
    | inr (e, (n, at_n)) ↦
        subst (λ x. Follows f h (advance f.buttons f.time x)) (sym e)
          (advance-Follows n d at_n known k)
  ]

-- A detector knows the buttons of the last sample.
run-previous : (h : History) → (run h).previous ≡ last_buttons h
unfolding run update advance
run-previous [] = refl
run-previous (f ∷ h) = refl

run-Remembers : (h : History) → Remembers h (run h)
unfolding run
run-Remembers [] = (tt, tt, tt)
run-Remembers (f ∷ h) = (update-Follows f h (run h) (run-previous h) (run-Remembers h)).1

-- Whatever the detector has been told since it was made, with clock readings in any order: when it
-- opens the menu, both buttons are down, and at most 100 ms ago one went down, up at the sample
-- before and down at that one, between 60 and 650 ms behind a sample with both up, which both being
-- held together came before.
pub menu-IsDoubleChord :
    (f : Sample) (h : History)
    → (update f.buttons f.time (run h)).0.open_menu ≡ true
    → IsDoubleChord (f ∷ h)
menu-IsDoubleChord f h = (update-Follows f h (run h) (run-previous h) (run-Remembers h)).0
