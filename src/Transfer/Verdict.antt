-- ===== src/Transfer/Verdict.antt =====
-- What `uploadProblem` of upload-transfer.ts says about a selection.
use retrom.Prelude.{
  ℕ, ◌≤◌, ◌≡◌, ◌↔◌, refl, true, false, inl, inr, List, [], ◌∷◌, Option, none, some, ltb, ◌==◌,
  length, Bool-cases, arith, All,
}
use retrom.Text.{Text}
use retrom.Envelope.Texts.{includes}
use retrom.Transfer.Selection.{
  UploadEntry, total_bytes, most_files, Problem, nothing_selected, too_many_files, total_too_large,
  file_and_folder, scan_entries, find_file_above, folder_problem, scan_problem, upload_problem,
}
use retrom.Transfer.Folders.{IsFolderOf, find_file_above_iff}
use retrom.Transfer.Uploadable.{
  Absent, paths_of, size_of, IsUploadable, includes_iff, Fits, Fits-iff, le→ltb_false, ltb_false→le,
  zero_add, scan_entries_complete, scan_entries_sound,
}

not_zero : (n : ℕ) → 1 ≤ n → (n == 0) ≡ false
not_zero n h = ground arith

All-Absent : (qs : List Text) → All (λ q. Absent q []) qs
All-Absent [] = tt
All-Absent (q ∷ qs) = (tt, All-Absent qs)

All-iff : (P Q : Text → Type 0) → ((q : Text) → P q ↔ Q q) → (qs : List Text) → All P qs ↔ All Q qs
All-iff P Q h [] = (λ _. tt, λ _. tt)
All-iff P Q h (q ∷ qs) = (
  λ (p, ps). ((h q).0 p, (All-iff P Q h qs).0 ps),
  λ (p, ps). ((h q).1 p, (All-iff P Q h qs).1 ps),
)

plain_iff :
    (es : List UploadEntry)
    → (find_file_above (paths_of es) (paths_of es) ≡ none)
      ↔ All (λ q. (a : Text) → IsFolderOf a q → Absent a (paths_of es)) (paths_of es)
plain_iff es =
    let found = find_file_above_iff (paths_of es) (paths_of es) in
    let absent =
      All-iff (λ q. (a : Text) → IsFolderOf a q → includes (paths_of es) a ≡ false)
        (λ q. (a : Text) → IsFolderOf a q → Absent a (paths_of es))
        (λ q. (
          λ k a folder. (includes_iff (paths_of es) a).0 (k a folder),
          λ k a folder. (includes_iff (paths_of es) a).1 (k a folder),
        ))
        (paths_of es) in
    (λ h. absent.0 (found.0 h), λ h. found.1 (absent.1 h))

a_problem : (p : Problem) → some p ≡ none → ⊥
a_problem p h = ground arith

folder_problem_iff :
    (o : Option Text) (total : ℕ)
    → (folder_problem o total ≡ none) ↔ ((o ≡ none) × (total ≤ total_bytes))
folder_problem_iff (some f) total =
    (λ h. elim (a_problem (file_and_folder f) h) [ ], λ (h, _). elim (a_file h) [ ])
  where
    a_file : some f ≡ none → ⊥
    a_file h = ground arith
folder_problem_iff none total = elim (Bool-cases (ltb total_bytes total)) [
  | inl e ↦ (
    λ h. elim (a_problem total_too_large (rw e at h)) [ ],
    λ (_, k). elim (clash e (le→ltb_false total total_bytes k)) [ ],
  )
  | inr e ↦ (λ h. (refl, ltb_false→le total total_bytes e), λ h. rw e refl)
]
  where
    clash : ltb total_bytes total ≡ true → ltb total_bytes total ≡ false → ⊥
    clash x y = ground arith

-- The verdict on entries that the loop reads to the end.
scan_problem_iff :
    (es : List UploadEntry)
    → Fits [] es
    → (scan_problem (scan_entries [] 0 es) ≡ none)
      ↔ ((find_file_above (paths_of es) (paths_of es) ≡ none) × (size_of es ≤ total_bytes))
scan_problem_iff es fits =
    rw (scan_entries_complete [] 0 es fits, zero_add (size_of es))
      (folder_problem_iff (find_file_above (paths_of es) (paths_of es)) (size_of es))

upload_problem_sound :
    (entries : List UploadEntry) → upload_problem entries ≡ none → IsUploadable entries
unfolding upload_problem
upload_problem_sound entries h = elim (Bool-cases (length entries == 0)) [
  | inl nothing ↦ elim (a_problem nothing_selected (rw nothing at h)) [ ]
  | inr something ↦ elim (Bool-cases (ltb most_files (length entries))) [
    | inl many ↦ elim (a_problem too_many_files (rw (something, many) at h)) [ ]
    | inr few ↦ uploadable something few (rw (something, few) at h)
  ]
]
  where
    uploadable :
        (length entries == 0) ≡ false
        → ltb most_files (length entries) ≡ false
        → scan_problem (scan_entries [] 0 entries) ≡ none
        → IsUploadable entries
    uploadable something few k =
        let fits = scan_entries_sound [] 0 entries k in
        let (oks, _, distinct) = (Fits-iff [] entries).0 fits in
        let (plain, total) = (scan_problem_iff entries fits).0 k in
        record {
          some_files = ground arith;
          few_files = ltb_false→le (length entries) most_files few;
          allowed = oks;
          distinct = distinct;
          plain = (plain_iff entries).0 plain;
          total = total;
        }

upload_problem_complete :
    (entries : List UploadEntry) → IsUploadable entries → upload_problem entries ≡ none
unfolding upload_problem
upload_problem_complete entries h =
    let something : (length entries == 0) ≡ false = not_zero (length entries) h.some_files in
    let few = le→ltb_false (length entries) most_files h.few_files in
    let fits = (Fits-iff [] entries).1 (h.allowed, All-Absent (paths_of entries), h.distinct) in
    rw (something, few) ((scan_problem_iff entries fits).1 ((plain_iff entries).1 h.plain, h.total))

-- No problem is found with a selection exactly when it has 1 to 50000 files, none above 4 GiB and
-- together at most 20 GiB, with safe paths that are distinct, none of them a folder of another.
pub upload_problem_iff :
    (entries : List UploadEntry) → (upload_problem entries ≡ none) ↔ IsUploadable entries
upload_problem_iff entries = (upload_problem_sound entries, upload_problem_complete entries)
