-- ===== src/Envelope/Texts.antt =====
-- web/features/player/runtime/envelope.ts: the checks on texts and on lists of texts.
use retrom.Prelude.{
  ℕ, suc, Bool, true, false, not, ◌&&◌, ◌||◌, List, [], ◌∷◌, ◌++◌, leb, within, ◌==◌, if◌then◌else◌,
  length, all, any, map, String,
}
use retrom.Text.{Text, lit, same, precedes, is_high, is_low}

abbrev pub includes : List Text → Text → Bool
includes xs s = any (λ x. same x s) xs

-- `[…].includes(…)` for a list of literals.
abbrev pub one_of : List String → Text → Bool
one_of xs s = includes (map lit xs) s

-- `Array.prototype.sort` on strings: by code units.
unfoldable pub insert : Text → List Text → List Text
insert k [] = k ∷ []
insert k (j ∷ js) = if precedes j k then j ∷ insert k js else k ∷ j ∷ js

unfoldable pub sort : List Text → List Text
unfolding insert
sort [] = []
sort (k ∷ ks) = insert k (sort ks)

unfoldable pub all_same : List Text → List Text → Bool
all_same [] [] = true
all_same (s ∷ ss) (t ∷ ts) = same s t && all_same ss ts
all_same [] (t ∷ ts) = false
all_same (s ∷ ss) [] = false

-- `wellFormed`. Behind the last unit the code reads NaN, which passes the test.
unfoldable pub well_formed : Text → Bool
well_formed [] = true
well_formed (c ∷ []) = not (is_low c)
well_formed (c ∷ d ∷ s) =
    let later = well_formed (d ∷ s) in
    if is_high c then is_low d && well_formed s else if is_low c then false else later

-- `[...s].length`: a surrogate pair counts as one.
unfoldable pub code_points : Text → ℕ
code_points [] = 0
code_points (c ∷ []) = 1
code_points (c ∷ d ∷ s) =
    let single = suc (code_points (d ∷ s)) in
    if is_high c && is_low d then suc (code_points s) else single

-- `startsWith` and `endsWith`.
unfoldable pub starts_with : Text → Text → Bool
starts_with [] s = true
starts_with (p ∷ ps) [] = false
starts_with (p ∷ ps) (c ∷ s) = p == c && starts_with ps s

unfoldable pub ends_with : Text → Text → Bool
unfolding same
ends_with p [] = same p []
ends_with p (c ∷ s) = same p (c ∷ s) || ends_with p s

-- `relativeURL`. A code point lies between " " and "~" if its first unit does.
unfoldable pub relative_url : Text → Bool
unfolding starts_with
relative_url s =
    leb (length s) 2048
    && starts_with (lit "/") s
    && not (starts_with (lit "//") s)
    && not (any (λ c. c == 0x5c) s)
    && not (any (λ c. c == b'#') s)
    && all (within 0x20 0x7e) s

-- `split("/")`.
unfoldable pub split_from : Text → Text → List Text
split_from part [] = part ∷ []
split_from part (c ∷ s) =
    let closed = part ∷ split_from [] s in
    let longer = split_from (part ++ c ∷ []) s in if c == b'/' then closed else longer

abbrev pub split_slash : Text → List Text
split_slash s = split_from [] s

-- `safePath`, with its maximum.
unfoldable pub safe_path : ℕ → Text → Bool
unfolding starts_with split_from
safe_path maximum s =
    leb 1 (length s)
    && leb (length s) maximum
    && not (starts_with (lit "/") s)
    && not (any (λ c. c == 0x5c || leb c 0x1f || c == 0x7f) s)
    && all (λ part. not (one_of ("" ∷ "." ∷ ".." ∷ []) part)) (split_slash s)

-- `new Set(values).size`, as the list of the distinct values.
unfoldable pub distinct : List Text → List Text
distinct [] = []
distinct (s ∷ ss) = if includes ss s then distinct ss else s ∷ distinct ss

unfoldable pub ascending : List Text → Bool
ascending [] = true
ascending (s ∷ []) = true
ascending (s ∷ t ∷ ss) = precedes s t && ascending (t ∷ ss)
