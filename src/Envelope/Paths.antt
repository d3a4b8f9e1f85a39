-- ===== src/Envelope/Paths.antt =====
-- A path that `safePath` of envelope.ts accepts stays below the directory that it is taken from.
use retrom.Prelude.{
  ℕ, ◌≤◌, ◌≡◌, refl, ap, inl, inr, Bool, true, not, List, [], ◌∷◌, ◌++◌, Option, none, some, arith,
  ==_iff, ◌==◌, if◌then◌else◌, Bool-cases, length, all, append_assoc, append-nil, leb→le,
}
use mathlib.Core.List.{reverse_aux}
use retrom.Text.{Text}
use retrom.Envelope.Texts.{one_of, split_from, split_slash, safe_path}

-- The directory that the parts of a path lead to, innermost part first: "" and "." stay, ".."
-- leaves, and leaving the root fails.
unfoldable pub walk : List Text → List Text → Option (List Text)
walk dir [] = some dir
walk dir (part ∷ parts) =
    let inside = walk (part ∷ dir) parts in
    let here = walk dir parts in
    let above : Option (List Text) = elim dir [ [] ↦ none | d ∷ ds ↦ walk ds parts ] in
    if one_of ("" ∷ "." ∷ []) part then here else if one_of (".." ∷ []) part then above else inside

-- The parts with slashes between them.
unfoldable pub join_slash : List Text → Text
join_slash [] = []
join_slash (part ∷ []) = part
join_slash (part ∷ next ∷ parts) = part ++ b'/' ∷ join_slash (next ∷ parts)

abbrev is_plain_part : Text → Bool
is_plain_part part = not (one_of ("" ∷ "." ∷ ".." ∷ []) part)

walk-plain :
    (dir parts : List Text)
    → all is_plain_part parts ≡ true
    → walk dir parts ≡ some (reverse_aux parts dir)
unfolding walk
walk-plain dir [] h = refl
walk-plain dir (part ∷ parts) h = ground (arith, walk-plain (part ∷ dir) parts)

split_from-cons :
    (part s : Text) → (next : Text) × (parts : List Text) × (split_from part s ≡ next ∷ parts)
unfolding split_from
split_from-cons part [] = (part, [], refl)
split_from-cons part (c ∷ s) = elim (Bool-cases (c == b'/')) [
  | inl h ↦ (part, split_from [] s, rw h)
  | inr h ↦ let (next, parts, e) = split_from-cons (part ++ c ∷ []) s in (next, parts, rw h e)
]

join_slash-split_from : (part s : Text) → join_slash (split_from part s) ≡ part ++ s
unfolding join_slash split_from
join_slash-split_from part [] = rw append-nil
join_slash-split_from part (c ∷ s) = elim (Bool-cases (c == b'/')) [
  | inl h ↦ rw h (closed (split_from-cons [] s) (join_slash-split_from [] s) ((==_iff c b'/').0 h))
  | inr h ↦ rw h (rw (join_slash-split_from (part ++ c ∷ []) s) (append_assoc part (c ∷ []) s))
]
  where
    closed :
        (next : Text) × (parts : List Text) × (split_from [] s ≡ next ∷ parts)
        → join_slash (split_from [] s) ≡ s
        → c ≡ b'/'
        → join_slash (part ∷ split_from [] s) ≡ part ++ c ∷ s
    closed (next, parts, e) ih slash = rw (e, slash) (ap (λ t. part ++ b'/' ∷ t) (rw e at ih))

safe_path-parts :
    (maximum : ℕ) (s : Text)
    → safe_path maximum s ≡ true
    → (length s ≤ maximum) × (all is_plain_part (split_slash s) ≡ true)
unfolding safe_path
safe_path-parts maximum s h = ground (arith, leb→le (length s) maximum)

-- A path that is accepted leads from any directory to one below it, by its own parts; those parts,
-- with slashes between them, are the path, and it is no longer than the maximum.
pub safe_path_stays_below :
    (maximum : ℕ) (s : Text) (dir : List Text)
    → safe_path maximum s ≡ true
    → (walk dir (split_slash s) ≡ some (reverse_aux (split_slash s) dir))
      × (join_slash (split_slash s) ≡ s)
      × (length s ≤ maximum)
safe_path_stays_below maximum s dir h =
    let (short, plain) = safe_path-parts maximum s h in
    (walk-plain dir (split_slash s) plain, join_slash-split_from [] s, short)
