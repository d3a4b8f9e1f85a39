-- ===== src/Immersive/Memory.antt =====
-- What the fields of the detector of immersive-controls.ts remember of its history.
use retrom.Prelude.{
  ℕ, ◌+◌, ◌≡◌, refl, sym, subst, ◌⊎◌, Bool, true, false, not, ◌&&◌, ◌||◌, ◌∷◌, Option, none, some,
  leb, Bool-cases, Option-cases, inl, inr, if◌then◌else◌, arith,
}
use retrom.Immersive.Buttons.{
  Time, at_least, ReservedButton, select_button, start_button, PerButton, at, Candidate, Detector,
}
use retrom.Immersive.Chord.{
  first_rising, begins_second, new_candidate, candidate_of, rising_edge, expire_candidate,
}
use retrom.Immersive.History.{
  Sample, History, last_buttons, Chorded, earlier_chord, Released, up, earlier_release,
  PressedAgain, down, earlier_press,
}

-- What the fields of the detector remember of a history.
abbrev pub CompletedOk : History → Option Time → Type 0
CompletedOk h none = Unit
CompletedOk h (some none) = Unit
CompletedOk h (some (some t)) = Released t h

abbrev pub CandidateOk : History → Option Candidate → Type 0
CandidateOk h none = Unit
CandidateOk h (some c) =
    c.second_chord ≡ true → (t : ℕ) × (c.started_at ≡ some t) × PressedAgain t h

abbrev pub ChordOk : History → Option Bool → Type 0
ChordOk h none = Unit
ChordOk h (some b) = Chorded h

abbrev pub Remembers : History → Detector → Type 0
Remembers h d = CompletedOk h d.first_completed × CandidateOk h d.candidate × ChordOk h d.chord

-- A button that goes down was up before.
first_rising-some :
    (previous current : PerButton Bool) (b : ReservedButton)
    → first_rising (rising_edge previous current) ≡ some b
    → (at previous b ≡ false) × (at current b ≡ true)
first_rising-some previous current select_button e = ground arith
first_rising-some previous current start_button e = ground arith

module _ (f : Sample) (h : History) where
  pub CompletedOk-later : (o : Option Time) → CompletedOk h o → CompletedOk (f ∷ h) o
  CompletedOk-later none k = tt
  CompletedOk-later (some none) k = tt
  CompletedOk-later (some (some t)) k = earlier_release k

  pub CandidateOk-later : (o : Option Candidate) → CandidateOk h o → CandidateOk (f ∷ h) o
  CandidateOk-later none k = tt
  CandidateOk-later (some c) k = λ e. let (t, at_t, p) = k e in (t, at_t, earlier_press p)

  pub ChordOk-later : (o : Option Bool) → ChordOk h o → ChordOk (f ∷ h) o
  ChordOk-later none k = tt
  ChordOk-later (some b) k = earlier_chord k

  pub Remembers-later : (d : Detector) → Remembers h d → Remembers (f ∷ h) d
  Remembers-later d (completed, candidate, chord) =
      (CompletedOk-later _ completed, CandidateOk-later _ candidate, ChordOk-later _ chord)

  -- The time of a release behind a chord may be kept.
  pub released-CompletedOk :
      (second : Bool) (o : Option Time)
      → (f.buttons.select || f.buttons.start) ≡ false
      → Chorded h
      → CompletedOk h o
      → CompletedOk (f ∷ h) (if second then o else some f.time)
  released-CompletedOk true o e chord k = CompletedOk-later o k
  released-CompletedOk false o e chord k = elim (Option-cases f.time) [
    | inl at_nan ↦ rw at_nan tt
    | inr (t, at_t) ↦ rw at_t (up (ground arith) (ground arith) at_t chord)
  ]

  -- A press that may begin the second chord.
  begins-PressedAgain :
      (completed : Option Time) (b : ReservedButton)
      → (at (last_buttons h) b ≡ false) × (at f.buttons b ≡ true)
      → CompletedOk h completed
      → begins_second f.time completed ≡ true
      → (t : ℕ) × (f.time ≡ some t) × PressedAgain t (f ∷ h)
  begins-PressedAgain none b pressed k e = cc e
  begins-PressedAgain (some none) b pressed k e = cc e
  begins-PressedAgain (some (some r)) b pressed k e = elim (Option-cases f.time) [
    | inl at_nan ↦ cc (rw at_nan at e)
    | inr (t, at_t) ↦
        let both : (leb (r + 60) t && leb t (r + 650)) ≡ true = rw at_t at e in
        (t, at_t, down b pressed.0 pressed.1 at_t k (ground arith) (ground arith))
  ]

  new_candidate-CandidateOk :
      (completed : Option Time) (o : Option ReservedButton)
      → ((b : ReservedButton)
          → o ≡ some b
          → (at (last_buttons h) b ≡ false) × (at f.buttons b ≡ true))
      → CompletedOk h completed
      → CandidateOk (f ∷ h) (new_candidate f.time completed o)
  new_candidate-CandidateOk completed none pressed k = tt
  new_candidate-CandidateOk completed (some first) pressed k =
      λ e. begins-PressedAgain completed first (pressed first refl) k e

  -- A second chord is begun behind a first one only, by a detector that knows the last sample.
  pub candidate_of-CandidateOk :
      (previous : PerButton Bool) (completed : Option Time) (o : Option Candidate)
      → (previous ≡ last_buttons h) ⊎ (completed ≡ none)
      → CompletedOk h completed
      → CandidateOk h o
      → CandidateOk (f ∷ h) (candidate_of (rising_edge previous f.buttons) f.time completed o)
  candidate_of-CandidateOk previous completed (some c) known k j = CandidateOk-later (some c) j
  candidate_of-CandidateOk previous completed none (inl e) k j =
      new_candidate-CandidateOk completed _
        (λ b r.
          let (was_up, is_down) = first_rising-some previous f.buttons b r in
          (subst (λ p. at p b ≡ false) e was_up, is_down))
        k
  candidate_of-CandidateOk previous completed none (inr e) k j =
      subst
        (λ o.
          CandidateOk (f ∷ h)
            (new_candidate f.time o (first_rising (rising_edge previous f.buttons))))
        (sym e) (never-CandidateOk (first_rising (rising_edge previous f.buttons)))
    where
      never-CandidateOk :
          (o : Option ReservedButton) → CandidateOk (f ∷ h) (new_candidate f.time none o)
      never-CandidateOk none = tt
      never-CandidateOk (some b) = λ e. cc e

  pub expire-CandidateOk :
      (o : Option Candidate)
      → CandidateOk (f ∷ h) o
      → CandidateOk (f ∷ h) (expire_candidate f.buttons f.time o)
  expire-CandidateOk none k = tt
  expire-CandidateOk (some c) k =
      elim (Bool-cases (not (at f.buttons c.first) || at_least 100 c.started_at f.time)) [
        | inl e ↦ rw e tt
        | inr e ↦ rw e k
      ]
