-- ===== src/Immersive/Neighbours.antt =====
-- `letterTarget` of list-jump.ts against the neighbours of a position among the offsets.
use retrom.Prelude.{
  ℕ, zero, suc, ◌≤◌, ◌<◌, ◌≡◌, Bool, true, false, List, [], ◌∷◌, Option, none, some, ltb, refl, leb,
  map, All, Bool-cases, inl, inr, arith,
}
use mathlib.Core.List.{Memᴰ}
use retrom.Immersive.ListJump.{
  LetterStart, Direction, previous, next, find, find_last_index, letter_target, from_group,
  in_front, back_from,
}

-- The offsets ascend.
abbrev pub AscendingOffsets : List LetterStart → Type 0
AscendingOffsets [] = Unit
AscendingOffsets (l ∷ ls) = All (λ k. l.offset < k.offset) ls × AscendingOffsets ls

-- The least offset above the position, if there is one.
abbrev pub IsLeastAbove : ℕ → List LetterStart → Option ℕ → Type 0
IsLeastAbove position letters none = All (λ l. l.offset ≤ position) letters
IsLeastAbove position letters (some o) =
    (position < o)
    × Memᴰ o (map (λ l. l.offset) letters)
    × All (λ l. position < l.offset → o ≤ l.offset) letters

-- The greatest offset below the position, if there is one.
abbrev pub IsGreatestBelow : ℕ → List LetterStart → Option ℕ → Type 0
IsGreatestBelow position letters none = All (λ l. position ≤ l.offset) letters
IsGreatestBelow position letters (some o) =
    (o < position)
    × Memᴰ o (map (λ l. l.offset) letters)
    × All (λ l. l.offset < position → l.offset ≤ o) letters

abbrev pub IsNeighbour : ℕ → List LetterStart → Direction → Option ℕ → Type 0
IsNeighbour position letters next = IsLeastAbove position letters
IsNeighbour position letters previous = IsGreatestBelow position letters

-- Where the last item with the property stands.
data LastAt (p : LetterStart → Bool) : List LetterStart → Option ℕ → Type 0 where
  nowhere : {ls : List LetterStart} → All (λ l. p l ≡ false) ls → LastAt p ls none
  first :
      {l : LetterStart} {ls : List LetterStart}
      → p l ≡ true
      → All (λ k. p k ≡ false) ls
      → LastAt p (l ∷ ls) (some 0)
  later :
      {l : LetterStart} {ls : List LetterStart} {i : ℕ}
      → LastAt p ls (some i)
      → LastAt p (l ∷ ls) (some (suc i))

All-weaken :
    (P Q : LetterStart → Type 0)
    → ((l : LetterStart) → P l → Q l)
    → (ls : List LetterStart) → All P ls
    → All Q ls
All-weaken P Q f [] h = tt
All-weaken P Q f (l ∷ ls) (h, hs) = (f l h, All-weaken P Q f ls hs)

in_front-LastAt :
    (p : LetterStart → Bool) (l : LetterStart) {ls : List LetterStart} {o : Option ℕ}
    → LastAt p ls o
    → LastAt p (l ∷ ls) (in_front (p l) o)
in_front-LastAt p l (first e h) = later (first e h)
in_front-LastAt p l (later h) = later (later h)
in_front-LastAt p l (nowhere h) = elim (Bool-cases (p l)) [
  | inl e ↦ rw e (first e h)
  | inr e ↦ rw e (nowhere (e, h))
]

find_last_index-LastAt :
    (p : LetterStart → Bool) (ls : List LetterStart) → LastAt p ls (find_last_index p ls)
unfolding find_last_index
find_last_index-LastAt p [] = nowhere tt
find_last_index-LastAt p (l ∷ ls) = in_front-LastAt p l (find_last_index-LastAt p ls)

least_of_first :
    (position : ℕ) (l : LetterStart) (ls : List LetterStart)
    → position < l.offset
    → AscendingOffsets (l ∷ ls)
    → IsLeastAbove position (l ∷ ls) (some l.offset)
least_of_first position l ls h (above, asc) = (
  h,
  Memᴰ.head refl,
  (
    λ _. ground arith,
    All-weaken (λ k. l.offset < k.offset) (λ k. position < k.offset → l.offset ≤ k.offset)
        (λ k lt _. ground arith) ls above,
  ),
)

least_of_later :
    (position : ℕ) (l : LetterStart) (ls : List LetterStart) (o : Option ℕ)
    → l.offset ≤ position
    → IsLeastAbove position ls o
    → IsLeastAbove position (l ∷ ls) o
least_of_later position l ls none le h = (le, h)
least_of_later position l ls (some o) le (lt, m, least) =
    (lt, Memᴰ.tail m, (λ above. ground arith, least))

-- The least offset above a position is the first one that is above.
find-IsLeastAbove :
    (position : ℕ) (ls : List LetterStart)
    → AscendingOffsets ls
    → IsLeastAbove position ls (letter_target ls position next)
unfolding letter_target find
find-IsLeastAbove position [] asc = tt
find-IsLeastAbove position (l ∷ ls) asc = elim (Bool-cases (ltb position l.offset)) [
  | inl e ↦ rw e (least_of_first position l ls (ground arith) asc)
  | inr e ↦ rw e (
      least_of_later position l ls (letter_target ls position next) (ground arith)
        (find-IsLeastAbove position ls asc.1))
]

-- The last offset that is not above the position is in front of it, behind another such offset.
LastAt-head_below :
    (position : ℕ) (l : LetterStart) (ls : List LetterStart) (i : ℕ)
    → AscendingOffsets (l ∷ ls)
    → LastAt (λ k. leb k.offset position) ls (some i)
    → l.offset < position
LastAt-head_below position l [] i _ h = elim h [ ]
LastAt-head_below position l (k ∷ ls) zero ((lt, _), asc) (first e h) = ground arith
LastAt-head_below position l (k ∷ ls) (suc i) ((lt, _), asc) (later h) =
    let below = LastAt-head_below position k ls i asc h in ground arith

greatest_of_later :
    (position : ℕ) (l k : LetterStart) (ls : List LetterStart) (o : Option ℕ)
    → l.offset < k.offset
    → k.offset < position
    → IsGreatestBelow position (k ∷ ls) o
    → IsGreatestBelow position (l ∷ k ∷ ls) o
greatest_of_later position l k ls none lt below (h, hs) = ground arith
greatest_of_later position l k ls (some o) lt below (h, m, (here, greatest)) =
    (h, Memᴰ.tail m, (λ _. ground arith, (here, greatest)))

-- What follows an offset that is not above the position, when none of the rest is below it.
none_between :
    (position o : ℕ) (ls : List LetterStart)
    → All (λ k. leb k.offset position ≡ false) ls
    → All (λ k. k.offset < position → k.offset ≤ o) ls
none_between position o ls =
    All-weaken (λ k. leb k.offset position ≡ false) (λ k. k.offset < position → k.offset ≤ o)
      (λ k e lt. ground arith) ls

none_below :
    (position : ℕ) (ls : List LetterStart)
    → All (λ k. leb k.offset position ≡ false) ls
    → All (λ k. position ≤ k.offset) ls
none_below position ls =
    All-weaken (λ k. leb k.offset position ≡ false) (λ k. position ≤ k.offset) (λ k e. ground arith)
      ls

from_group-IsGreatestBelow :
    (position : ℕ) (ls : List LetterStart) (i : ℕ)
    → AscendingOffsets ls
    → LastAt (λ k. leb k.offset position) ls (some i)
    → IsGreatestBelow position ls (from_group ls position i)
from_group-IsGreatestBelow position [] i asc h = elim h [ ]
from_group-IsGreatestBelow position (l ∷ ls) zero asc (first e h) =
    elim (Bool-cases (ltb l.offset position)) [
      | inl lt ↦
          rw lt
            (ground arith, Memᴰ.head refl, (λ _. ground arith, none_between position l.offset ls h))
      | inr ge ↦ rw ge (ground arith, none_below position ls h)
    ]
from_group-IsGreatestBelow position (l ∷ []) (suc i) asc (later h) = elim h [ ]
from_group-IsGreatestBelow position (l ∷ k ∷ ls) (suc zero) ((lt, _), asc) (later (first e h)) =
    elim (Bool-cases (ltb k.offset position)) [
      | inl below ↦ rw below (
        ground arith,
        Memᴰ.tail (Memᴰ.head refl),
        (λ _. ground arith, (λ _. ground arith, none_between position k.offset ls h)),
      )
      | inr ge ↦ rw ge (
        ground arith,
        Memᴰ.head refl,
        (λ _. ground arith, (λ below. ground arith, none_between position l.offset ls h)),
      )
    ]
from_group-IsGreatestBelow position (l ∷ k ∷ ls) (suc (suc i)) ((lt, _), asc) (later (later h)) =
    greatest_of_later position l k ls (from_group (k ∷ ls) position (suc i)) lt
      (LastAt-head_below position k ls i asc h)
      (from_group-IsGreatestBelow position (k ∷ ls) (suc i) asc (later h))

group-IsGreatestBelow :
    (position : ℕ) (ls : List LetterStart) (o : Option ℕ)
    → AscendingOffsets ls
    → LastAt (λ k. leb k.offset position) ls o
    → IsGreatestBelow position ls (back_from ls position o)
group-IsGreatestBelow position ls none asc (nowhere h) = none_below position ls h
group-IsGreatestBelow position ls (some i) asc h = from_group-IsGreatestBelow position ls i asc h

-- Among letter groups whose offsets ascend, the target of a jump forward is the least offset above
-- the position, and that of a jump back the greatest offset below it. There is no target just when
-- there is no such offset.
pub letter_target-IsNeighbour :
    (position : ℕ) (letters : List LetterStart) (d : Direction)
    → AscendingOffsets letters
    → IsNeighbour position letters d (letter_target letters position d)
unfolding letter_target
letter_target-IsNeighbour position letters next asc = find-IsLeastAbove position letters asc
letter_target-IsNeighbour position letters previous asc =
    group-IsGreatestBelow position letters _ asc (find_last_index-LastAt _ letters)
