-- ===== src/Transfer/Selection.antt =====
-- web/features/scans/upload-transfer.ts: which selections of files may be uploaded.
use retrom.Prelude.{
  ℕ, zero, suc, ◌+◌, ◌*◌, ◌^◌, Bool, not, ◌&&◌, List, [], ◌∷◌, ◌++◌, Option, none, some, ltb, leb,
  ◌==◌, if◌then◌else◌, length, all, any,
}
use retrom.Text.{Text}
use retrom.Envelope.Texts.{includes, one_of, split_slash}

-- A file is the list of its bytes.
pub record UploadEntry : Type 0 where
  pub path : Text
  pub file : List ℕ

-- `uploadLimits`.
abbrev pub file_bytes : ℕ
file_bytes = 4 * 1024 ^ 3

abbrev pub total_bytes : ℕ
total_bytes = 20 * 1024 ^ 3

abbrev pub most_files : ℕ
most_files = 50000

abbrev pub depth : ℕ
depth = 24

-- The reasons that `uploadProblem` gives, with the path that is named in the message.
pub data Problem : Type 0 where
  nothing_selected too_many_files total_too_large : Problem
  file_too_large unsafe_path repeated file_and_folder : Text → Problem

-- `safePath`.
unfoldable pub safe_upload_path : Text → Bool
unfolding retrom.Envelope.Texts.split_from
safe_upload_path path =
    ltb 0 (length path)
    && leb (length path) 1024
    && not (any (λ c. c == 0x5c) path)
    && not (any (λ c. c == 0) path)
    && leb (length (split_slash path)) (depth + 1)
    && all (λ part. not (one_of ("" ∷ "." ∷ ".." ∷ []) part)) (split_slash path)

-- `path.slice(0, path.lastIndexOf("/"))`, where there is a slash.
unfoldable pub before_last_slash : Text → Option Text
before_last_slash [] = none
before_last_slash (c ∷ s) = elim (before_last_slash s) [
  | some t ↦ some (c ∷ t)
  | none ↦ if c == b'/' then some [] else none
]

-- `parentOf`: a slash at the start counts for nothing.
abbrev pub or_empty : Option Text → Text
or_empty none = []
or_empty (some t) = t

abbrev pub parent_of : Text → Text
parent_of path = or_empty (before_last_slash path)

-- What the loop over the entries comes to: a problem, or the paths and the total.
pub data Scanned : Type 0 where
  refused : Problem → Scanned
  scanned : List Text → ℕ → Scanned

unfoldable pub scan_entries : List Text → ℕ → List UploadEntry → Scanned
unfolding safe_upload_path
scan_entries paths total [] = scanned paths total
scan_entries paths total (e ∷ es) =
    let rest = scan_entries (paths ++ e.path ∷ []) (total + length e.file) es in
    if ltb file_bytes (length e.file)
    then refused (file_too_large e.path)
    else if not (safe_upload_path e.path)
    then refused (unsafe_path e.path)
    else if includes paths e.path
    then refused (repeated e.path)
    else rest

-- The loop over the parents of a path, from one of them on.
unfoldable pub file_above : ℕ → List Text → Text → Option Text
unfolding before_last_slash
file_above zero paths parent = none
file_above (suc n) paths parent =
    let later = file_above n paths (parent_of parent) in
    if length parent == 0 then none else if includes paths parent then some parent else later

-- The loop over the paths. Each parent is shorter than its path.
unfoldable pub find_file_above : List Text → List Text → Option Text
unfolding file_above
find_file_above paths [] = none
find_file_above paths (q ∷ qs) = elim (file_above (length q) paths (parent_of q)) [
  | some parent ↦ some parent
  | none ↦ find_file_above paths qs
]

abbrev pub folder_problem : Option Text → ℕ → Option Problem
folder_problem (some parent) total = some (file_and_folder parent)
folder_problem none total = if ltb total_bytes total then some total_too_large else none

abbrev pub scan_problem : Scanned → Option Problem
scan_problem (refused p) = some p
scan_problem (scanned paths total) = folder_problem (find_file_above paths paths) total

-- `uploadProblem`.
unfoldable pub upload_problem : List UploadEntry → Option Problem
unfolding scan_entries find_file_above
upload_problem entries =
    if length entries == 0
    then some nothing_selected
    else if ltb most_files (length entries)
    then some too_many_files
    else scan_problem (scan_entries [] 0 entries)
