-- ===== src/Envelope/Patterns.antt =====
-- The regular expressions of web/features/player/runtime/envelope.ts.
use retrom.Prelude.{ℕ, Bool, ◌||◌, within, ◌==◌}
use retrom.Regex.{Regex, unit, seq, alt, star, opt, plus, rep, up_to, chr}

-- `[0-9]`, `[a-z]`, `[A-Z]` and a listed unit.
abbrev is_digit : ℕ → Bool
is_digit c = within b'0' b'9' c

abbrev is_lower : ℕ → Bool
is_lower c = within b'a' b'z' c

abbrev is_upper : ℕ → Bool
is_upper c = within b'A' b'Z' c

abbrev pub is_hex : ℕ → Bool
is_hex c = is_digit c || within b'a' b'f' c

abbrev pub is_alnum : ℕ → Bool
is_alnum c = is_lower c || is_digit c

abbrev pub hex : Regex
hex = unit is_hex

abbrev pub alnum : Regex
alnum = unit is_alnum

-- `/^[0-9a-f]{64}$/`.
abbrev pub digest : Regex
digest = rep 64 hex

-- `/^[a-z0-9](?:[a-z0-9-]{0,62}[a-z0-9])?$/`.
abbrev pub identity : Regex
identity = seq alnum (opt (seq (up_to 62 (unit (λ c. is_alnum c || c == b'-'))) alnum))

-- `/^[a-z0-9]+(?:[-_][a-z0-9]+)*$/`.
abbrev pub core_identity : Regex
core_identity = seq (plus alnum) (star (seq (unit (λ c. c == b'-' || c == b'_')) (plus alnum)))

-- `/^[a-z0-9](?:[a-z0-9.-]{0,62}[a-z0-9])?$/`.
abbrev pub token : Regex
token = seq alnum (opt (seq (up_to 62 (unit (λ c. is_alnum c || c == b'.' || c == b'-'))) alnum))

-- `0|[1-9][0-9]*`.
abbrev natural : Regex
natural = alt (chr b'0') (seq (unit (λ c. within b'1' b'9' c)) (star (unit is_digit)))

abbrev letter_or_dash : ℕ → Bool
letter_or_dash c = is_upper c || is_lower c || c == b'-'

abbrev word_unit : ℕ → Bool
word_unit c = is_digit c || letter_or_dash c

-- `0|[1-9][0-9]*|[0-9A-Za-z-]*[A-Za-z-][0-9A-Za-z-]*`, a part of a pre-release.
abbrev prerelease : Regex
prerelease =
    alt natural (seq (star (unit word_unit)) (seq (unit letter_or_dash) (star (unit word_unit))))

-- A version with its optional pre-release.
abbrev pub semver : Regex
semver = seq natural (
    seq (chr b'.') (
      seq natural (
        seq (chr b'.') (
          seq natural (opt (seq (chr b'-') (seq prerelease (star (seq (chr b'.') prerelease)))))))))

-- `/^[0-9a-f]{8}-[0-9a-f]{4}-[1-8][0-9a-f]{3}-[89ab][0-9a-f]{3}-[0-9a-f]{12}$/`.
abbrev pub uuid_pattern : Regex
uuid_pattern = seq (rep 8 hex) (
    seq (chr b'-') (
      seq (rep 4 hex) (
        seq (chr b'-') (
          seq (unit (λ c. within b'1' b'8' c)) (
            seq (rep 3 hex) (
              seq (chr b'-') (
                seq (unit (λ c. c == b'8' || c == b'9' || c == b'a' || c == b'b'))
                  (seq (rep 3 hex) (seq (chr b'-') (rep 12 hex))))))))))
