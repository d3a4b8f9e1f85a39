-- ===== src/Transfer/Uploadable.antt =====
-- When `uploadProblem` of upload-transfer.ts finds no problem.
use retrom.Prelude.{
  ℕ, ◌+◌, ◌≤◌, ◌≡◌, ◌≢◌, ◌↔◌, refl, sym, ◌∙◌, true, false, inl, inr, List, [], ◌∷◌, ◌++◌, none, ltb,
  length, map, Bool-cases, arith, append_assoc, append-nil, All,
}
use retrom.Text.{Text, same, same_sound, same_refl}
use retrom.Envelope.Texts.{includes}
use retrom.Transfer.Selection.{
  UploadEntry, file_bytes, total_bytes, most_files, Problem, file_too_large, unsafe_path, repeated,
  safe_upload_path, Scanned, refused, scanned, scan_entries, scan_problem,
}
use retrom.Transfer.Folders.{IsFolderOf}

abbrev pub Absent : Text → List Text → Type 0
Absent a ps = All (λ p. p ≢ a) ps

abbrev pub Distinct : List Text → Type 0
Distinct [] = Unit
Distinct (p ∷ ps) = Absent p ps × Distinct ps

abbrev pub paths_of : List UploadEntry → List Text
paths_of es = map (λ e. e.path) es

abbrev pub size_of : List UploadEntry → ℕ
size_of [] = 0
size_of (e ∷ es) = length e.file + size_of es

-- What each entry must be on its own.
abbrev pub IsAllowed : UploadEntry → Type 0
IsAllowed e = (length e.file ≤ file_bytes) × (safe_upload_path e.path ≡ true)

pub record IsUploadable (entries : List UploadEntry) : Type 0 where
  pub some_files : 1 ≤ length entries
  pub few_files : length entries ≤ most_files
  pub allowed : All IsAllowed entries
  pub distinct : Distinct (paths_of entries)
  -- No selected path is a folder of another one.
  pub plain :
      All (λ q. (a : Text) → IsFolderOf a q → Absent a (paths_of entries)) (paths_of entries)
  pub total : size_of entries ≤ total_bytes

pub includes_iff : (ps : List Text) (a : Text) → (includes ps a ≡ false) ↔ Absent a ps
includes_iff [] a = (λ h. tt, λ h. refl)
includes_iff (p ∷ ps) a = elim (Bool-cases (same p a)) [
  | inl e ↦ (λ h. elim (clash (rw e at h)) [ ], λ (k, h). elim (k (same_sound p a e)) [ ])
  | inr e ↦ (
    λ h. (λ x. differ e x, (includes_iff ps a).0 (rw e at h)),
    λ (k, h). rw e ((includes_iff ps a).1 h),
  )
]
  where
    clash : true ≡ false → ⊥
    clash k = ground arith

    differ : same p a ≡ false → p ≡ a → ⊥
    differ e x = cc (same_refl a, e, x)

Absent-snoc : (ps : List Text) (p a : Text) → Absent a (ps ++ p ∷ []) ↔ (Absent a ps × (p ≢ a))
Absent-snoc [] p a = (λ (k, h). (tt, k), λ (h, k). (k, tt))
Absent-snoc (q ∷ ps) p a = (
  λ (k, h). let (later, last) = (Absent-snoc ps p a).0 h in ((k, later), last),
  λ ((k, later), last). (k, (Absent-snoc ps p a).1 (later, last)),
)

-- What the loop asks of the entries behind some paths.
abbrev pub Fits : List Text → List UploadEntry → Type 0
Fits ps [] = Unit
Fits ps (e ∷ es) = IsAllowed e × Absent e.path ps × Fits (ps ++ e.path ∷ []) es

Absent-split :
    (ps : List Text) (p : Text) (qs : List Text)
    → All (λ q. Absent q (ps ++ p ∷ [])) qs ↔ (All (λ q. Absent q ps) qs × Absent p qs)
Absent-split ps p [] = (λ h. (tt, tt), λ h. tt)
Absent-split ps p (q ∷ qs) = (
  λ (k, h).
      let (before, last) = (Absent-snoc ps p q).0 k in
      let (all_before, all_last) = (Absent-split ps p qs).0 h in
      ((before, all_before), (λ x. last (sym x), all_last)),
  λ ((before, all_before), (last, all_last)). (
    (Absent-snoc ps p q).1 (before, λ x. last (sym x)),
    (Absent-split ps p qs).1 (all_before, all_last),
  ),
)

pub Fits-iff :
    (ps : List Text) (es : List UploadEntry)
    → Fits ps es
      ↔ (All IsAllowed es × All (λ q. Absent q ps) (paths_of es) × Distinct (paths_of es))
Fits-iff ps [] = (λ h. (tt, tt, tt), λ h. tt)
Fits-iff ps (e ∷ es) = (
  λ (ok, absent, fits).
      let (oks, absents, distinct) = (Fits-iff (ps ++ e.path ∷ []) es).0 fits in
      let (before, last) = (Absent-split ps e.path (paths_of es)).0 absents in
      ((ok, oks), (absent, before), (last, distinct)),
  λ ((ok, oks), (absent, before), (last, distinct)). (
    ok,
    absent,
    (Fits-iff (ps ++ e.path ∷ []) es).1
        (oks, (Absent-split ps e.path (paths_of es)).1 (before, last), distinct),
  ),
)

pub le→ltb_false : (a b : ℕ) → a ≤ b → ltb b a ≡ false
le→ltb_false a b h = ground arith

pub ltb_false→le : (a b : ℕ) → ltb b a ≡ false → a ≤ b
ltb_false→le a b h = ground arith

add_zero : (n : ℕ) → n + 0 ≡ n
add_zero n = omega arith

pub zero_add : (n : ℕ) → 0 + n ≡ n
zero_add n = omega arith

add_assoc : (a b c : ℕ) → a + b + c ≡ a + (b + c)
add_assoc a b c = omega arith

abbrev pub Reads : List Text → ℕ → List UploadEntry → Scanned
Reads ps total es = scanned (ps ++ paths_of es) (total + size_of es)

pub scan_entries_complete :
    (ps : List Text) (total : ℕ) (es : List UploadEntry)
    → Fits ps es
    → scan_entries ps total es ≡ Reads ps total es
unfolding scan_entries
scan_entries_complete ps total [] h = rw (append-nil ps, add_zero total) refl
scan_entries_complete ps total (e ∷ es) ((small, safe), absent, fits) =
    rw (le→ltb_false (length e.file) file_bytes small, safe, (includes_iff ps e.path).1 absent)
      (scan_entries_complete (ps ++ e.path ∷ []) (total + length e.file) es fits ∙ later)
  where
    later : Reads (ps ++ e.path ∷ []) (total + length e.file) es ≡ Reads ps total (e ∷ es)
    later =
        rw
          (
            append_assoc ps (e.path ∷ []) (paths_of es),
            add_assoc total (length e.file) (size_of es),
          )
          refl

refused_problem : (p : Problem) → scan_problem (refused p) ≡ none → ⊥
refused_problem p h = ground arith

pub scan_entries_sound :
    (ps : List Text) (total : ℕ) (es : List UploadEntry)
    → scan_problem (scan_entries ps total es) ≡ none
    → Fits ps es
unfolding scan_entries
scan_entries_sound ps total [] h = tt
scan_entries_sound ps total (e ∷ es) h = elim (Bool-cases (ltb file_bytes (length e.file))) [
  | inl large ↦ elim (refused_problem (file_too_large e.path) (rw large at h)) [ ]
  | inr small ↦ elim (Bool-cases (safe_upload_path e.path)) [
    | inr unsafe ↦ elim (refused_problem (unsafe_path e.path) (rw (small, unsafe) at h)) [ ]
    | inl safe ↦ elim (Bool-cases (includes ps e.path)) [
      | inl twice ↦ elim (refused_problem (repeated e.path) (rw (small, safe, twice) at h)) [ ]
      | inr once ↦ (
        (ltb_false→le (length e.file) file_bytes small, safe),
        (includes_iff ps e.path).0 once,
        scan_entries_sound (ps ++ e.path ∷ []) (total + length e.file) es
            (rw (small, safe, once) at h),
      )
    ]
  ]
]
