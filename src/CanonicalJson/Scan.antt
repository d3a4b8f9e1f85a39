-- ===== src/CanonicalJson/Scan.antt =====
-- web/features/player/runtime/canonical-json.ts: the results of the scanner, and its reading of
-- white space, words and hexadecimal units. The source is what is left of it behind the offset.
use retrom.Prelude.{
  ℕ, ◌+◌, ◌-◌, ◌*◌, Bool, false, ◌||◌, [], ◌∷◌, Option, none, some, within, ◌==◌, if◌then◌else◌,
}
use retrom.Text.{Text}

-- `failed` is the SyntaxError of `fail`; `out_of_fuel` has no counterpart in the program.
pub data Result {ℓ} (A : Type ℓ) : Type ℓ where
  ok : A → Result A
  failed out_of_fuel : Result A

infixl 5 ◌>>=◌
abbrev pub ◌>>=◌ {ℓ κ} : {A : Type ℓ} {B : Type κ} → Result A → (A → Result B) → Result B
ok a >>= f = f a
failed >>= f = failed
out_of_fuel >>= f = out_of_fuel

-- A reader returns what it read and the rest of the source.
abbrev pub Reader : Type 0 → Type 0
Reader A = Text → Result (A × Text)

-- `peek() === unit`.
abbrev pub starts : ℕ → Text → Bool
starts unit [] = false
starts unit (c ∷ ts) = c == unit

abbrev pub is_space : ℕ → Bool
is_space c = c == 0x20 || c == 0x9 || c == 0xd || c == 0xa

unfoldable pub whitespace : Text → Text
whitespace [] = []
whitespace (c ∷ ts) = if is_space c then whitespace ts else c ∷ ts

-- `word` after the expected text.
unfoldable pub word : {A : Type 0} → Text → A → Reader A
word [] a ts = ok (a, ts)
word (e ∷ es) a [] = failed
word (e ∷ es) a (c ∷ ts) = if c == e then word es a ts else failed

-- `/[0-9A-Fa-f]/`, with the value of the digit.
abbrev pub hex_digit : ℕ → Option ℕ
hex_digit c =
    if within b'0' b'9' c
    then some (c - b'0')
    else if within b'A' b'F' c
    then some (c - b'A' + 10)
    else if within b'a' b'f' c
    then some (c - b'a' + 10)
    else none

abbrev pub digit_or_fail : ℕ → Result ℕ
digit_or_fail c = elim (hex_digit c) [ none ↦ failed | some d ↦ ok d ]

unfoldable pub hex_unit : Reader ℕ
hex_unit (a ∷ b ∷ c ∷ d ∷ ts) = do
  a' ← digit_or_fail a
  b' ← digit_or_fail b
  c' ← digit_or_fail c
  d' ← digit_or_fail d
  ok (((a' * 16 + b') * 16 + c') * 16 + d', ts)
hex_unit _ = failed
