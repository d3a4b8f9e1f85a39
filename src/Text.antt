-- ===== src/Text.antt =====
-- JavaScript strings: lists of UTF-16 code units, with the comparisons of the language.
pub mod Order
use retrom.Prelude.{
  ℕ, ◌≡◌, refl, ◌↔◌, Bool, true, false, ◌&&◌, ◌||◌, List, [], ◌∷◌, String, arith, ltb, within, ◌==◌,
  ◌++◌,
}
use Prim.Native.Char.{code}

abbrev pub Text : Type 0
Text = List ℕ

-- The code units of an ASCII literal of the source.
abbrev pub lit : String → Text
lit String.[] = []
lit (String.◌∷◌ c s) = code c ∷ lit s

-- `===` on strings.
unfoldable pub same : Text → Text → Bool
same [] [] = true
same (a ∷ s) (b ∷ t) = a == b && same s t
same [] (b ∷ t) = false
same (a ∷ s) [] = false

-- `<` on strings: by code units.
unfoldable pub precedes : Text → Text → Bool
precedes [] [] = false
precedes [] (b ∷ t) = true
precedes (a ∷ s) [] = false
precedes (a ∷ s) (b ∷ t) = ltb a b || (a == b && precedes s t)

pub same_sound : (s t : Text) → same s t ≡ true → s ≡ t
unfolding same
same_sound [] [] h = refl
same_sound (a ∷ s) (b ∷ t) h = ground (arith, same_sound s t)
same_sound [] (b ∷ t) h = ground arith
same_sound (a ∷ s) [] h = ground arith

pub same_refl : (s : Text) → same s s ≡ true
unfolding same
same_refl [] = refl
same_refl (a ∷ s) = ground (arith, same_refl s)

pub same_iff : (s t : Text) → (same s t ≡ true) ↔ (s ≡ t)
same_iff s t = (same_sound s t, λ p. cc (same_refl s))

pub same_comm : (s t : Text) → same s t ≡ same t s
unfolding same
same_comm [] [] = refl
same_comm (a ∷ s) (b ∷ t) = ground (arith, same_comm s t)
same_comm [] (b ∷ t) = refl
same_comm (a ∷ s) [] = refl

-- The halves of a surrogate pair.
abbrev pub is_high : ℕ → Bool
is_high c = within 0xd800 0xdbff c

abbrev pub is_low : ℕ → Bool
is_low c = within 0xdc00 0xdfff c

-- Every surrogate stands in a pair.
pub data IsWellFormed : Text → Type 0 where
  nil : IsWellFormed []
  unit :
      {c : ℕ} {s : Text}
      → is_high c ≡ false
      → is_low c ≡ false
      → IsWellFormed s
      → IsWellFormed (c ∷ s)
  pair :
      {c d : ℕ} {s : Text}
      → is_high c ≡ true
      → is_low d ≡ true
      → IsWellFormed s
      → IsWellFormed (c ∷ d ∷ s)

pub append-IsWellFormed : {s t : Text} → IsWellFormed s → IsWellFormed t → IsWellFormed (s ++ t)
append-IsWellFormed nil k = k
append-IsWellFormed (unit p q h) k = unit p q (append-IsWellFormed h k)
append-IsWellFormed (pair p q h) k = pair p q (append-IsWellFormed h k)
