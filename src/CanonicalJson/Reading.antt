-- ===== src/CanonicalJson/Reading.antt =====
-- The strings and numbers that the parser of canonical-json.ts returns.
use retrom.Prelude.{
  ℕ, zero, suc, ◌+◌, ◌-◌, ◌*◌, ◌<◌, ◌≤◌, ◌≡◌, refl, Bool, true, false, [], ◌∷◌, ◌++◌, some, arith,
  ltb, ltb→lt, within, within→bounds, or-eq-false_right, ◌/◌, ◌%◌, ◌&&◌, ◌||◌, ◌==◌, if◌then◌else◌,
  length, tail, inl, inr, Option-cases, magnitude,
}
use retrom.Text.{Text, is_high, is_low, IsWellFormed, nil, unit, pair, append-IsWellFormed}
use retrom.CanonicalJson.Scan.{Result, starts, whitespace, word, hex_digit, digit_or_fail, hex_unit}
use retrom.CanonicalJson.Strings.{
  quote, backslash, simple, second_half, unicode_escape, escaped_string_unit, Round, closed, more,
  from_code_point, surrogate_pair, string_round, continue_string, string_from, string,
}
use retrom.CanonicalJson.Numbers.{
  starts_digit, drop_digits, unsigned, decimal_from, safe_bound, signed, number,
}
use retrom.CanonicalJson.Outcome.{
  Ensures, returned, thrown, Reads, Ensures-if, Ensures-bind, Ensures-weaken,
}

pub length-whitespace : (ts : Text) → length (whitespace ts) ≤ length ts
unfolding whitespace
length-whitespace [] = omega arith
length-whitespace (c ∷ ts) = ground (arith, length-whitespace ts)

length-drop_digits : (ts : Text) → length (drop_digits ts) ≤ length ts
unfolding drop_digits
length-drop_digits [] = omega arith
length-drop_digits (c ∷ ts) = ground (arith, length-drop_digits ts)

pub word-Reads :
    {A : Type 0} (e : ℕ) (es ts : Text) (a : A) → Reads (λ b. a ≡ b) ts (word (e ∷ es) a ts)
unfolding word
word-Reads e es [] a = thrown
word-Reads e es (c ∷ ts) a = Ensures-if (c == e) (λ _. rest es ts) (λ _. thrown)
  where
    rest : (es ts : Text) → Ensures (λ r. (a ≡ r.0) × (length r.1 < suc (length ts))) (word es a ts)
    rest [] ts = returned (refl, omega arith)
    rest (e ∷ es) [] = thrown
    rest (e ∷ es) (c ∷ ts) =
        Ensures-if (c == e) (λ _. Ensures-weaken (rest es ts) (λ _ h. (h.0, omega arith)))
          (λ _. thrown)

hex_unit-Reads : (ts : Text) → Reads (λ _. Unit {0}) ts (hex_unit ts)
unfolding hex_unit
hex_unit-Reads (a ∷ b ∷ c ∷ d ∷ ts) = Ensures-bind (digit a) λ _ _.
    Ensures-bind (digit b)
      λ _ _. Ensures-bind (digit c) λ _ _. Ensures-bind (digit d) λ _ _. returned (tt, omega arith)
  where
    digit : (c : ℕ) → Ensures (λ _. Unit {0}) (digit_or_fail c)
    digit c = elim (Option-cases (hex_digit c)) [
      | inl e ↦ rw (e, digit_or_fail) thrown
      | inr (d, e) ↦ rw (e, digit_or_fail) (returned tt)
    ]
hex_unit-Reads _ = thrown

-- An escaped pair gives back its two halves.
from_code_point_lem :
    (c d : ℕ)
    → is_high c ≡ true
    → is_low d ≡ true
    → from_code_point (0x10000 + (c - 0xd800) * 0x400 + d - 0xdc00) ≡ c ∷ d ∷ []
from_code_point_lem c d h l =
    let high = within→bounds 0xd800 0xdbff c h in
    let low = within→bounds 0xdc00 0xdfff d l in
    cc (first c d high.0 low.0 low.1, second c d high.0 low.0 low.1)
  where
    first :
        (c d : ℕ)
        → 0xd800 ≤ c
        → 0xdc00 ≤ d
        → d ≤ 0xdfff
        → 0xd800 + (0x10000 + (c - 0xd800) * 0x400 + d - 0xdc00 - 0x10000) / 0x400 ≡ c
    first c d p q r = omega arith

    second :
        (c d : ℕ)
        → 0xd800 ≤ c
        → 0xdc00 ≤ d
        → d ≤ 0xdfff
        → 0xdc00 + (0x10000 + (c - 0xd800) * 0x400 + d - 0xdc00 - 0x10000) % 0x400 ≡ d
    second c d p q r = omega arith

second_half-Reads :
    (c : ℕ) (ts : Text) → is_high c ≡ true → Reads IsWellFormed ts (second_half c ts)
unfolding second_half
second_half-Reads c (b ∷ u ∷ ts) h =
    Ensures-if (b == backslash && u == b'u')
      (λ _. Ensures-bind (hex_unit-Reads ts) λ (d, rest) k.
        Ensures-if (is_low d)
          (λ l. returned (rw (from_code_point_lem c d h l) (pair h l nil), omega (arith, k.1)))
          (λ _. thrown))
      (λ _. thrown)
second_half-Reads c _ h = thrown

unicode_escape-Reads : (ts : Text) → Reads IsWellFormed ts (unicode_escape ts)
unfolding unicode_escape
unicode_escape-Reads ts = Ensures-bind (hex_unit-Reads ts) λ (c, rest) k.
    Ensures-if (is_low c) (λ _. thrown)
      λ l.
        Ensures-if (is_high c)
          (λ h. Ensures-weaken (second_half-Reads c rest h) (λ _ j. (j.0, omega (arith, j.1, k.1))))
          (λ h. returned (unit h l nil, k.1))

simple-low : (e c : ℕ) → simple e ≡ some c → c < 0x80
simple-low e c h = ground arith

low-IsWellFormed : (c : ℕ) → c < 0x80 → IsWellFormed (c ∷ [])
low-IsWellFormed c h = unit (ground arith) (ground arith) nil

escaped_string_unit-Reads : (ts : Text) → Reads IsWellFormed ts (escaped_string_unit ts)
unfolding escaped_string_unit
escaped_string_unit-Reads [] = thrown
escaped_string_unit-Reads (e ∷ ts) =
    Ensures-if (e == b'u')
      (λ _. Ensures-weaken (unicode_escape-Reads ts) (λ _ j. (j.0, omega (arith, j.1))))
      (λ _. elim (Option-cases (simple e)) [
        | inl s ↦ rw s thrown
        | inr (c, s) ↦ rw s (returned (low-IsWellFormed c (simple-low e c s), omega arith))
      ])

-- What a round of the loop of `string` has read.
abbrev RoundReads : Text → Round → Type 0
RoundReads ts (closed rest) = length rest < length ts
RoundReads ts (more p rest) = IsWellFormed p × (length rest < length ts)

surrogate_pair-RoundReads :
    (c : ℕ) (ts : Text) → is_high c ≡ true → Ensures (RoundReads (c ∷ ts)) (surrogate_pair c ts)
unfolding surrogate_pair
surrogate_pair-RoundReads c [] h = thrown
surrogate_pair-RoundReads c (d ∷ rest) h =
    Ensures-if (is_low d) (λ l. returned (pair h l nil, omega arith)) (λ _. thrown)

string_round-RoundReads : (ts : Text) → Ensures (RoundReads ts) (string_round ts)
unfolding string_round
string_round-RoundReads [] = thrown
string_round-RoundReads (c ∷ ts) =
    Ensures-if (c == quote) (λ _. returned (omega arith))
      λ _.
        Ensures-if (c == backslash)
          (λ _.
            Ensures-bind (escaped_string_unit-Reads ts) λ _ j. returned (j.0, omega (arith, j.1)))
          λ _.
            Ensures-if (ltb c 0x20 || is_low c) (λ _. thrown)
              λ l.
                Ensures-if (is_high c) (surrogate_pair-RoundReads c ts)
                  λ h. returned (unit h (or-eq-false_right _ _ l) nil, omega arith)

continue_string-Reads :
    (loop : Text → Text → Result (Text × Text)) (acc ts : Text) (r : Round)
    → IsWellFormed acc
    → RoundReads ts r
    → ((acc rest : Text)
        → IsWellFormed acc
        → length rest < length ts
        → Reads IsWellFormed rest (loop acc rest))
    → Reads IsWellFormed ts (continue_string loop acc r)
continue_string-Reads loop acc ts (closed rest) h k ih = returned (h, k)
continue_string-Reads loop acc ts (more p rest) h (wf, k) ih =
    Ensures-weaken (ih (acc ++ p) rest (append-IsWellFormed h wf) k)
      (λ _ j. (j.0, omega (arith, j.1)))

string_from-Reads :
    (f : ℕ) (acc ts : Text)
    → IsWellFormed acc
    → length ts < f
    → Reads IsWellFormed ts (string_from f acc ts)
unfolding string_from
string_from-Reads zero acc ts h lt = absurd (omega arith)
string_from-Reads (suc f) acc ts h lt = Ensures-bind (string_round-RoundReads ts) λ r k.
    continue_string-Reads (string_from f) acc ts r h k
      λ acc rest wf l. string_from-Reads f acc rest wf (omega arith)

pub string-Reads : (ts : Text) → Reads IsWellFormed ts (string ts)
unfolding string
string-Reads [] = thrown
string-Reads (c ∷ ts) =
    Ensures-if (c == quote)
      (λ _.
        Ensures-weaken (string_from-Reads (suc (length ts)) [] ts nil (omega arith))
          (λ _ j. (j.0, omega (arith, j.1))))
      (λ _. thrown)

unsigned-Reads : (ts : Text) → Reads (λ _. Unit {0}) ts (unsigned ts)
unfolding unsigned
unsigned-Reads [] = thrown
unsigned-Reads (c ∷ ts) =
    Ensures-if (c == b'0')
      (λ _. Ensures-if (starts_digit ts) (λ _. thrown) (λ _. returned (tt, omega arith)))
      (λ _.
        Ensures-if (within b'1' b'9' c) (λ _. returned (tt, omega (arith, length-drop_digits ts)))
          (λ _. thrown))

magnitude-signed : (b : Bool) (n : ℕ) → magnitude (signed b n) ≡ n
magnitude-signed true zero = refl
magnitude-signed false zero = refl
magnitude-signed true (suc n) = refl
magnitude-signed false (suc n) = refl

length-signless : (ts : Text) → length (if starts b'-' ts then tail ts else ts) ≤ length ts
length-signless [] = omega arith
length-signless (c ∷ ts) = ground arith

signed-safe : (b : Bool) (n : ℕ) → ltb n safe_bound ≡ true → magnitude (signed b n) < safe_bound
signed-safe b n h = rw (magnitude-signed b n) (ltb→lt n safe_bound h)

pub number-Reads : (ts : Text) → Reads (λ n. magnitude n < safe_bound) ts (number ts)
unfolding number
number-Reads ts =
    let signless = if starts b'-' ts then tail ts else ts in
    Ensures-bind (unsigned-Reads signless) λ (ds, rest) k.
      Ensures-if (ltb (decimal_from 0 ds) safe_bound)
        (λ h. returned (
          signed-safe (starts b'-' ts) (decimal_from 0 ds) h,
          omega (arith, k.1, length-signless ts),
        ))
        (λ _. thrown)
