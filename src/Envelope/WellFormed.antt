-- ===== src/Envelope/WellFormed.antt =====
-- What `wellFormed` of envelope.ts accepts.
use retrom.Prelude.{ℕ, ◌≡◌, refl, ◌↔◌, ◌⊎◌, inl, inr, true, false, [], ◌∷◌, ◌++◌, arith, Bool-cases}
use retrom.Text.{Text, is_high, is_low, IsWellFormed, nil, unit, pair}
use retrom.Envelope.Texts.{well_formed}

-- A well-formed text with the first half of a pair behind it.
pub record EndsHigh (s : Text) : Type 0 where
  pub before : Text
  pub last : ℕ
  pub split : s ≡ before ++ last ∷ []
  pub formed : IsWellFormed before
  pub high : is_high last ≡ true

abbrev IsAccepted : Text → Type 0
IsAccepted s = IsWellFormed s ⊎ EndsHigh s

unit-IsAccepted :
    (c : ℕ) {s : Text} → is_high c ≡ false → is_low c ≡ false → IsAccepted s → IsAccepted (c ∷ s)
unit-IsAccepted c h l (inl w) = inl (unit h l w)
unit-IsAccepted c h l (inr e) = inr (record {
  before = c ∷ e.before;
  last = e.last;
  split = cc e.split;
  formed = unit h l e.formed;
  high = e.high;
})

pair-IsAccepted :
    (c d : ℕ) {s : Text}
    → is_high c ≡ true
    → is_low d ≡ true
    → IsAccepted s
    → IsAccepted (c ∷ d ∷ s)
pair-IsAccepted c d h l (inl w) = inl (pair h l w)
pair-IsAccepted c d h l (inr e) = inr (record {
  before = c ∷ d ∷ e.before;
  last = e.last;
  split = cc e.split;
  formed = pair h l e.formed;
  high = e.high;
})

last-IsAccepted : (c : ℕ) → is_low c ≡ false → IsAccepted (c ∷ [])
last-IsAccepted c l = elim (Bool-cases (is_high c)) [
  | inl h ↦ inr (record { before = []; last = c; split = refl; formed = nil; high = h })
  | inr h ↦ inl (unit h l nil)
]

well_formed_sound : (s : Text) → well_formed s ≡ true → IsAccepted s
unfolding well_formed
well_formed_sound [] e = inl nil
well_formed_sound (c ∷ []) e = last-IsAccepted c (ground arith)
well_formed_sound (c ∷ d ∷ s) e = elim (Bool-cases (is_high c)) [
  | inl h ↦ pair-IsAccepted c d h (ground arith) (well_formed_sound s (ground arith))
  | inr h ↦ unit-IsAccepted c h (ground arith) (well_formed_sound (d ∷ s) (ground arith))
]

well_formed_complete : {s : Text} → IsWellFormed s → well_formed s ≡ true
unfolding well_formed
well_formed_complete nil = refl
well_formed_complete (unit {c} {s = []} h l w) = rw l
well_formed_complete (unit {c} {s = d ∷ s} h l w) = rw (h, l) (well_formed_complete w)
well_formed_complete (pair {c} {d} h l w) = rw (h, l) (well_formed_complete w)

high_not_low : (c : ℕ) → is_high c ≡ true → is_low c ≡ false
high_not_low c h = ground arith

ends_high_complete :
    {s : Text} (c : ℕ) → IsWellFormed s → is_high c ≡ true → well_formed (s ++ c ∷ []) ≡ true
unfolding well_formed
ends_high_complete c nil h = rw (high_not_low c h)
ends_high_complete c (unit {c = d} {s = []} k l w) h = rw (k, l) (ends_high_complete c w h)
ends_high_complete c (unit {c = d} {s = e ∷ s} k l w) h = rw (k, l) (ends_high_complete c w h)
ends_high_complete c (pair k l w) h = rw (k, l) (ends_high_complete c w h)

-- `wellFormed` accepts a text exactly when it is well-formed UTF-16, or is such a text with one
-- unpaired high surrogate behind it.
pub well_formed_iff : (s : Text) → (well_formed s ≡ true) ↔ (IsWellFormed s ⊎ EndsHigh s)
well_formed_iff s = (
  well_formed_sound s,
  elim [
    | inl w ↦ well_formed_complete w
    | inr e ↦ rw e.split (ends_high_complete e.last e.formed e.high)
  ],
)
