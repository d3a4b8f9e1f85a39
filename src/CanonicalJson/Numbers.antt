-- ===== src/CanonicalJson/Numbers.antt =====
-- web/features/player/runtime/canonical-json.ts: the reading of a number.
use retrom.Prelude.{
  ℕ, zero, suc, ◌+◌, ◌-◌, ◌*◌, ◌^◌, Bool, true, false, [], ◌∷◌, ltb, within, ◌==◌, if◌then◌else◌,
  tail, ℤ, pos, negsuc,
}
use retrom.Text.{Text}
use retrom.CanonicalJson.Scan.{ok, failed, ◌>>=◌, Reader, starts}

-- `/\d/`.
abbrev pub is_digit : ℕ → Bool
is_digit c = within b'0' b'9' c

abbrev pub starts_digit : Text → Bool
starts_digit [] = false
starts_digit (c ∷ ts) = is_digit c

unfoldable pub take_digits : Text → Text
take_digits [] = []
take_digits (c ∷ ts) = if is_digit c then c ∷ take_digits ts else []

unfoldable pub drop_digits : Text → Text
drop_digits [] = []
drop_digits (c ∷ ts) = if is_digit c then drop_digits ts else c ∷ ts

-- The digits of a number behind its sign.
unfoldable pub unsigned : Reader Text
unfolding take_digits drop_digits
unsigned [] = failed
unsigned (c ∷ ts) =
    if c == b'0'
    then (if starts_digit ts then failed else ok (c ∷ [], ts))
    else if within b'1' b'9' c
    then ok (c ∷ take_digits ts, drop_digits ts)
    else failed

-- `Number` of a text of digits, exactly. The rounding of a double above 2 ^ 53 keeps it there, so
-- the test for a safe integer is not changed by it.
unfoldable pub decimal_from : ℕ → Text → ℕ
decimal_from acc [] = acc
decimal_from acc (d ∷ ds) = decimal_from (acc * 10 + (d - b'0')) ds

abbrev pub safe_bound : ℕ
safe_bound = 2 ^ 53

-- -0 is 0 here: no code that reads the result tells them apart.
abbrev pub signed : Bool → ℕ → ℤ
signed negative zero = pos zero
signed true (suc n) = negsuc n
signed false (suc n) = pos (suc n)

unfoldable pub number : Reader ℤ
unfolding unsigned decimal_from
number ts =
    let negative = starts b'-' ts in
    do
      (ds, rest) ← unsigned (if negative then tail ts else ts)
      if ltb (decimal_from 0 ds) safe_bound
          then ok (signed negative (decimal_from 0 ds), rest)
          else failed
