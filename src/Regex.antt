-- ===== src/Regex.antt =====
-- The regular expressions of the client's validators, matched from `^` to `$` by derivatives. The
-- language's own engine is not modelled: `Matches` is what the expressions mean.
pub mod Laws
use retrom.Prelude.{
  ℕ, zero, suc, ◌≡◌, Bool, true, false, ◌&&◌, ◌||◌, List, [], ◌∷◌, ◌++◌, within, any, ◌==◌,
  if◌then◌else◌,
}
use retrom.Text.{Text}

pub data Regex : Type 0 where
  fail eps : Regex
  unit : (ℕ → Bool) → Regex
  seq alt : Regex → Regex → Regex
  star : Regex → Regex

-- The forms of the language: `r?`, `r+`, `r{n}`, `r{0,n}`, a class, and a literal unit.
abbrev pub opt : Regex → Regex
opt r = alt r eps

abbrev pub plus : Regex → Regex
plus r = seq r (star r)

abbrev pub rep : ℕ → Regex → Regex
rep zero r = eps
rep (suc n) r = seq r (rep n r)

abbrev pub up_to : ℕ → Regex → Regex
up_to zero r = eps
up_to (suc n) r = opt (seq r (up_to n r))

abbrev pub chr : ℕ → Regex
chr c = unit (λ d. d == c)

abbrev pub word_of : Text → Regex
word_of [] = eps
word_of (c ∷ s) = seq (chr c) (word_of s)

-- `u` is the text `s ++ t` read in two parts; the equation keeps the index a variable.
pub data Matches : Regex → Text → Type 0 where
  nothing : Matches eps []
  one : {p : ℕ → Bool} {c : ℕ} → p c ≡ true → Matches (unit p) (c ∷ [])
  both : {r q : Regex} {s t u : Text} → Matches r s → Matches q t → u ≡ s ++ t → Matches (seq r q) u
  left : {r q : Regex} {s : Text} → Matches r s → Matches (alt r q) s
  right : {r q : Regex} {s : Text} → Matches q s → Matches (alt r q) s
  done : {r : Regex} → Matches (star r) []
  again :
      {r : Regex} {s t u : Text}
      → Matches r s
      → Matches (star r) t
      → u ≡ s ++ t
      → Matches (star r) u

unfoldable pub nullable : Regex → Bool
nullable fail = false
nullable eps = true
nullable (unit p) = false
nullable (seq r q) = nullable r && nullable q
nullable (alt r q) = nullable r || nullable q
nullable (star r) = true

-- Sequences and alternatives without the parts that match nothing, or only the empty text.
unfoldable pub join : Regex → Regex → Regex
join fail q = fail
join eps q = q
join (unit p) q = seq (unit p) q
join (seq r s) q = seq (seq r s) q
join (alt r s) q = seq (alt r s) q
join (star r) q = seq (star r) q

unfoldable pub either : Regex → Regex → Regex
either fail q = q
either eps q = alt eps q
either (unit p) q = alt (unit p) q
either (seq r s) q = alt (seq r s) q
either (alt r s) q = alt (alt r s) q
either (star r) q = alt (star r) q

-- What is left to match behind a unit.
unfoldable pub derivative : ℕ → Regex → Regex
unfolding nullable join either
derivative c fail = fail
derivative c eps = fail
derivative c (unit p) = if p c then eps else fail
derivative c (seq r q) =
    if nullable r
    then either (join (derivative c r) q) (derivative c q)
    else join (derivative c r) q
derivative c (alt r q) = either (derivative c r) (derivative c q)
derivative c (star r) = join (derivative c r) (star r)

-- `/^…$/.test(s)`.
unfoldable pub test : Regex → Text → Bool
unfolding nullable derivative
test r [] = nullable r
test r (c ∷ s) = test (derivative c r) s
