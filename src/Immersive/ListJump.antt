-- ===== src/Immersive/ListJump.antt =====
-- web/features/immersive/list-jump.ts: where a jump in a list goes.
use retrom.Prelude.{
  ℕ, zero, suc, ◌+◌, ◌-◌, ◌<◌, ◌≡◌, Bool, true, false, ◌&&◌, List, [], ◌∷◌, Option, none, some, ltb,
  leb, min, if◌then◌else◌, get_elem?, any, arith,
}
use retrom.Text.{Text, lit, same}

-- `isJumpAction`.
unfoldable pub is_jump_action : Text → Bool
is_jump_action action =
    any (λ a. same action (lit a))
      ("pagePrevious" ∷ "pageNext" ∷ "groupPrevious" ∷ "groupNext" ∷ [])

pub record LetterStart : Type 0 where
  pub letter : Text
  pub offset : ℕ
  pub count : ℕ

pub record JumpTarget : Type 0 where
  pub index : ℕ
  pub load_more : Bool

pub data Direction : Type 0 where
  previous next : Direction

-- `pageTarget`. `Math.max(0, …)` of a difference is the subtraction of ℕ.
unfoldable pub page_target : ℕ → ℕ → Direction → ℕ → Bool → JumpTarget
page_target selected page_size previous loaded has_more = record {
  index = selected - page_size;
  load_more = false;
}
page_target selected page_size next loaded has_more = record {
  index = min (loaded - 1) (selected + page_size);
  load_more = has_more && leb (loaded - 1) (selected + page_size);
}

-- The index of the last match in a list, from whether its head matches and the one in its tail.
abbrev pub in_front : Bool → Option ℕ → Option ℕ
in_front here (some i) = some (suc i)
in_front here none = if here then some 0 else none

module _ {ℓ} {A : Type ℓ} (p : A → Bool) where
  -- `Array.prototype.find`, `findLast` and `findLastIndex`, which is -1 for `none`.
  unfoldable pub find : List A → Option A
  find [] = none
  find (x ∷ xs) = if p x then some x else find xs

  unfoldable pub find_last : List A → Option A
  find_last [] = none
  find_last (x ∷ xs) = elim (find_last xs) [ some y ↦ some y | none ↦ if p x then some x else none ]

  unfoldable pub find_last_index : List A → Option ℕ
  find_last_index [] = none
  find_last_index (x ∷ xs) = in_front (p x) (find_last_index xs)

-- `?.offset ?? null`.
abbrev pub offset_of : Option LetterStart → Option ℕ
offset_of none = none
offset_of (some l) = some l.offset

-- `letterAt`.
unfoldable pub letter_at : List LetterStart → ℕ → Text
unfolding find_last
letter_at letters position = elim (find_last (λ l. leb l.offset position) letters) [
  | none ↦ []
  | some l ↦ l.letter
]

-- `current > 0 ? letters[current - 1].offset : null`.
abbrev pub before_group : List LetterStart → ℕ → Option ℕ
before_group letters zero = none
before_group letters (suc i) = offset_of (get_elem? letters i)

-- The end of `letterTarget`, at the group of the index.
abbrev pub from_group : List LetterStart → ℕ → ℕ → Option ℕ
from_group letters position current = elim (get_elem? letters current) [
  | none ↦ none
  | some l ↦ if ltb l.offset position then some l.offset else before_group letters current
]

abbrev pub back_from : List LetterStart → ℕ → Option ℕ → Option ℕ
back_from letters position none = none
back_from letters position (some current) = from_group letters position current

-- `letterTarget`.
unfoldable pub letter_target : List LetterStart → ℕ → Direction → Option ℕ
unfolding find find_last_index
letter_target letters position next = offset_of (find (λ l. ltb position l.offset) letters)
letter_target letters position previous =
    back_from letters position (find_last_index (λ l. leb l.offset position) letters)

-- From a selected item of the loaded window, a jump by a page in either direction selects an item
-- of the window. It asks for more only when there is more and the selected item is the last one.
pub page_target-bounds :
    (selected page_size loaded : ℕ) (d : Direction) (has_more : Bool)
    → selected < loaded
    → ((page_target selected page_size d loaded has_more).index < loaded)
      × ((page_target selected page_size d loaded has_more).load_more ≡ true
          → (has_more ≡ true)
            × ((page_target selected page_size d loaded has_more).index + 1 ≡ loaded))
unfolding page_target
page_target-bounds selected page_size loaded previous has_more h = ground arith
page_target-bounds selected page_size loaded next has_more h = ground arith
