-- ===== src/Immersive/Chord.antt =====
-- web/features/player/immersive-controls.ts: the detector of the double chord of Select and Start,
-- and the gate that waits for neutral controls.
use retrom.Prelude.{Bool, true, false, not, ◌&&◌, ◌||◌, Option, none, some, if◌then◌else◌}
use retrom.Immersive.Buttons.{
  Time, chord_window, chord_release, second_chord_limit, neutral_time, earlier, at_least, at_most,
  more_than, less_than, ReservedButton, select_button, start_button, PerButton, at, other,
  ReservedButtonOutput, Candidate, Detector, no_times, initial, quiet,
}

abbrev pub pressed_since : Bool → Time → Option Time → Option Time
pressed_since rising now since = if rising then some now else since

-- `updateDownTimes`.
abbrev pub update_down_times : PerButton Bool → Time → Detector → Detector
update_down_times rising now d = record d {
  down_at = record {
    select = pressed_since rising.select now d.down_at.select;
    start = pressed_since rising.start now d.down_at.start;
  };
}

-- `finishChordWhenReleased`, with `chord.secondChord`.
abbrev pub finish_chord_when_released :
    Bool → PerButton Bool → Time → Detector → ReservedButtonOutput × Detector
finish_chord_when_released second current now d =
    if current.select || current.start then (quiet, d) else (
      quiet,
      record d { first_completed = if second then d.first_completed else some now; chord = none },
    )

abbrev pub expired : Time → Option Time → Bool
expired now none = false
expired now (some t) = more_than second_chord_limit t now

-- `expireFirstChord`.
abbrev pub expire_first_chord : Time → Detector → Detector
expire_first_chord now d =
    if expired now d.first_completed then record d { first_completed = none } else d

abbrev pub first_rising : PerButton Bool → Option ReservedButton
first_rising rising =
    if rising.select then some select_button else if rising.start then some start_button else none

-- Whether a press now may begin the second chord.
abbrev pub begins_second : Time → Option Time → Bool
begins_second now none = false
begins_second now (some t) = at_least chord_release t now && at_most second_chord_limit t now

abbrev pub new_candidate : Time → Option Time → Option ReservedButton → Option Candidate
new_candidate now completed none = none
new_candidate now completed (some first) =
    some (record { first = first; started_at = now; second_chord = begins_second now completed })

-- The start of `recognizeChord`: the candidate, a new one if there is none.
abbrev pub candidate_of : PerButton Bool → Time → Option Time → Option Candidate → Option Candidate
candidate_of rising now completed (some c) = some c
candidate_of rising now completed none = new_candidate now completed (first_rising rising)

abbrev pub completes : PerButton Bool → PerButton Bool → Time → Candidate → Bool
completes current rising now c = not (
    not (at rising (other c.first))
    || not (at current c.first)
    || more_than chord_window c.started_at now)

-- `expireCandidate`.
abbrev pub expire_candidate : PerButton Bool → Time → Option Candidate → Option Candidate
expire_candidate current now none = none
expire_candidate current now (some c) =
    if not (at current c.first) || at_least chord_window c.started_at now then none else some c

-- The end of `singleButtonOutput`, with `downAt`.
abbrev pub held_output : Bool → Bool → Time → Option Time → Bool
held_output current falling now none = false
held_output current falling now (some t) =
    if current then at_least chord_window t now else falling && less_than chord_window t now

-- `singleButtonOutput`; there is no chord where it is called.
abbrev pub single_button_output : Option Candidate → Bool → Bool → Time → Option Time → Bool
single_button_output (some c) current falling now since = false
single_button_output none current falling now since = held_output current falling now since

-- The end of `reduceGesture`, when no chord is recognized.
abbrev pub single_buttons :
    PerButton Bool → PerButton Bool → Time → Detector → ReservedButtonOutput × Detector
single_buttons current falling now d =
    let left = expire_candidate current now d.candidate in
    (
      record {
        open_menu = false;
        select_output =
            single_button_output left current.select falling.select now d.down_at.select;
        start_output = single_button_output left current.start falling.start now d.down_at.start;
      },
      record d { candidate = left },
    )

-- The end of `recognizeChord`.
abbrev pub recognized : Candidate → Detector → ReservedButtonOutput × Detector
recognized c d = (
  record { open_menu = c.second_chord; select_output = false; start_output = false },
  record d {
    candidate = none;
    chord = some c.second_chord;
    down_at = no_times;
    first_completed = if c.second_chord then none else d.first_completed;
  },
)

-- `recognizeChord` and what follows it, with the candidate.
abbrev pub with_candidate :
    PerButton Bool
    → PerButton Bool
    → PerButton Bool
    → Time
    → Detector
    → Option Candidate
    → ReservedButtonOutput × Detector
with_candidate current rising falling now d none =
    single_buttons current falling now (record d { candidate = none })
with_candidate current rising falling now d (some c) =
    if completes current rising now c
    then recognized c d
    else single_buttons current falling now (record d { candidate = some c })

-- `reduceGesture` without a chord, behind `expireFirstChord`.
abbrev pub seek_chord :
    PerButton Bool
    → PerButton Bool
    → PerButton Bool
    → Time
    → Detector
    → ReservedButtonOutput × Detector
seek_chord current rising falling now d =
    with_candidate current rising falling now d
      (candidate_of rising now d.first_completed d.candidate)

-- `reduceGesture`, with `chord`.
abbrev pub reduce_gesture :
    PerButton Bool
    → PerButton Bool
    → PerButton Bool
    → Time
    → Detector
    → Option Bool
    → ReservedButtonOutput × Detector
reduce_gesture current rising falling now d (some second) =
    finish_chord_when_released second current now d
reduce_gesture current rising falling now d none =
    seek_chord current rising falling now (expire_first_chord now d)

-- The guard of `update`.
abbrev pub reset_when_late : Time → Detector → Detector
reset_when_late none d = initial
reset_when_late (some now) d = if earlier (some now) d.last_now then initial else d

-- The end of `update`.
abbrev pub settle : PerButton Bool → PerButton Bool → Detector → Detector
settle current falling d = record d {
  down_at = record {
    select = if falling.select then none else d.down_at.select;
    start = if falling.start then none else d.down_at.start;
  };
  previous = current;
}

abbrev pub rising_edge : PerButton Bool → PerButton Bool → PerButton Bool
rising_edge previous current = record {
  select = current.select && not previous.select;
  start = current.start && not previous.start;
}

abbrev pub falling_edge : PerButton Bool → PerButton Bool → PerButton Bool
falling_edge previous current = rising_edge current previous

-- `update` behind its guard.
unfoldable pub advance : PerButton Bool → Time → Detector → ReservedButtonOutput × Detector
advance current now d =
    let rising = rising_edge d.previous current in
    let falling = falling_edge d.previous current in
    let (output, d2) =
      reduce_gesture current rising falling now
        (update_down_times rising now (record d { last_now = now })) d.chord in
    (output, settle current falling d2)

unfoldable pub update : PerButton Bool → Time → Detector → ReservedButtonOutput × Detector
unfolding advance
update current now d = advance current now (reset_when_late now d)

-- `ImmersiveNeutralGate.update`, with `neutralSinceMs`.
unfoldable pub update_gate : Bool → Time → Option Time → Bool × Option Time
update_gate false now since = (false, none)
update_gate true now none = (at_least neutral_time now now, some now)
update_gate true now (some t) = (at_least neutral_time t now, some t)
