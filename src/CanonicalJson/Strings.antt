-- ===== src/CanonicalJson/Strings.antt =====
-- web/features/player/runtime/canonical-json.ts: the reading of a string and of its escapes.
use retrom.Prelude.{
  ℕ, zero, suc, ◌+◌, ◌-◌, ◌*◌, ◌/◌, ◌%◌, ◌&&◌, ◌||◌, [], ◌∷◌, ◌++◌, Option, none, some, ltb, ◌==◌,
  if◌then◌else◌, length,
}
use retrom.Text.{Text, is_high, is_low}
use retrom.CanonicalJson.Scan.{Result, ok, failed, out_of_fuel, ◌>>=◌, Reader, hex_unit}

abbrev pub quote : ℕ
quote = 0x22

abbrev pub backslash : ℕ
backslash = 0x5c

-- The table `simple`.
abbrev pub simple : ℕ → Option ℕ
simple e =
    if e == quote || e == backslash || e == b'/'
    then some e
    else if e == b'b'
    then some 0x8
    else if e == b'f'
    then some 0xc
    else if e == b'n'
    then some 0xa
    else if e == b'r'
    then some 0xd
    else if e == b't'
    then some 0x9
    else none

-- `String.fromCodePoint` of a code point above 0xffff: its two code units.
abbrev pub from_code_point : ℕ → Text
from_code_point cp = (0xd800 + (cp - 0x10000) / 0x400) ∷ (0xdc00 + (cp - 0x10000) % 0x400) ∷ []

unfoldable pub second_half : ℕ → Reader Text
unfolding hex_unit
second_half first (b ∷ u ∷ ts) =
    if b == backslash && u == b'u'
    then (do
      (second, rest) ← hex_unit ts
      if is_low second
          then ok (from_code_point (0x10000 + (first - 0xd800) * 0x400 + second - 0xdc00), rest)
          else failed)
    else failed
second_half first _ = failed

unfoldable pub unicode_escape : Reader Text
unfolding hex_unit
unicode_escape ts = do
  (first, rest) ← hex_unit ts
  if is_low first
      then failed
      else if is_high first
      then second_half first rest
      else ok (first ∷ [], rest)

-- `escapedStringUnit`, behind the backslash.
unfoldable pub escaped_string_unit : Reader Text
unfolding unicode_escape second_half
escaped_string_unit [] = failed
escaped_string_unit (e ∷ ts) =
    if e == b'u'
    then unicode_escape ts
    else elim (simple e) [ none ↦ failed | some c ↦ ok (c ∷ [], ts) ]

-- The outcome of a round of the loop of `string`: the closing quote, or a piece of the result.
pub data Round : Type 0 where
  closed : Text → Round
  more : Text → Text → Round

abbrev pub piece : Text × Text → Result Round
piece (p, rest) = ok (more p rest)

-- A high surrogate and the unit behind it. At the end of the source that unit is NaN, which passes
-- the test; the loop then stands behind the source and fails.
unfoldable pub surrogate_pair : ℕ → Text → Result Round
surrogate_pair c [] = failed
surrogate_pair c (second ∷ rest) =
    if is_low second then ok (more (c ∷ second ∷ []) rest) else failed

unfoldable pub string_round : Text → Result Round
unfolding escaped_string_unit surrogate_pair
string_round [] = failed
string_round (c ∷ ts) =
    if c == quote
    then ok (closed ts)
    else if c == backslash
    then escaped_string_unit ts >>= piece
    else if ltb c 0x20 || is_low c
    then failed
    else if is_high c
    then surrogate_pair c ts
    else ok (more (c ∷ []) ts)

-- What follows a round: the result, or the rest of the loop.
abbrev pub continue_string : (Text → Reader Text) → Text → Round → Result (Text × Text)
continue_string loop acc (closed rest) = ok (acc, rest)
continue_string loop acc (more p rest) = loop (acc ++ p) rest

-- The loop, with the result so far. Each round reads a unit at least, which is the fuel.
unfoldable pub string_from : ℕ → Text → Reader Text
string_from zero acc ts = out_of_fuel
string_from (suc f) acc ts = string_round ts >>= continue_string (string_from f) acc

unfoldable pub string : Reader Text
unfolding string_round string_from
string [] = failed
string (c ∷ ts) = if c == quote then string_from (suc (length ts)) [] ts else failed
