-- ===== src/Transfer/Folders.antt =====
-- The folders that `parentOf` of upload-transfer.ts walks through.
use retrom.Prelude.{
  ℕ, zero, suc, ◌≤◌, ◌<◌, ◌≡◌, ◌≢◌, ◌↔◌, refl, sym, ap, ◌∙◌, subst, true, false, ◌⊎◌, inl, inr,
  List, [], ◌∷◌, ◌++◌, none, some, ◌==◌, ==_iff, length, Bool-cases, Option-cases, arith,
  append_assoc, All, length-append,
}
use retrom.Text.{Text}
use retrom.Envelope.Texts.{includes}
use retrom.Transfer.Selection.{before_last_slash, parent_of, file_above, find_file_above}

-- A path leads through the folder `a`.
abbrev pub IsFolderOf : Text → Text → Type 0
IsFolderOf a path = (a ≢ []) × (rest : Text) × (path ≡ a ++ b'/' ∷ rest)

-- The last slash is behind each folder, or stands at its end.
before_last_slash_complete :
    (a r : Text)
    → (t : Text) × (before_last_slash (a ++ b'/' ∷ r) ≡ some t)
      × ((a ≡ t) ⊎ ((q : Text) × (t ≡ a ++ b'/' ∷ q)))
unfolding before_last_slash
before_last_slash_complete [] r = elim (Option-cases (before_last_slash r)) [
  | inl e ↦ ([], rw e refl, inl refl)
  | inr (t, e) ↦ (b'/' ∷ t, rw e refl, inr (t, refl))
]
before_last_slash_complete (c ∷ a) r =
    let (t, e, at) = before_last_slash_complete a r in
    (
      c ∷ t,
      rw e refl,
      elim at [
        | inl same ↦ inl (ap (λ x. c ∷ x) same)
        | inr (q, later) ↦ inr (q, ap (λ x. c ∷ x) later)
      ],
    )

before_last_slash_sound :
    (s t : Text) → before_last_slash s ≡ some t → (r : Text) × (s ≡ t ++ b'/' ∷ r)
unfolding before_last_slash
before_last_slash_sound [] t h = ground arith
before_last_slash_sound (c ∷ s) t h = elim (Option-cases (before_last_slash s)) [
  | inl e ↦ elim (Bool-cases (c == b'/')) [
    | inl slash ↦ at_slash ((==_iff c b'/').0 slash) (rw (e, slash) at h)
    | inr other ↦ nothing (rw (e, other) at h)
  ]
  | inr (u, e) ↦ longer u (before_last_slash_sound s u e) (rw e at h)
]
  where
    at_slash : c ≡ b'/' → some [] ≡ some t → (r : Text) × (c ∷ s ≡ t ++ b'/' ∷ r)
    at_slash slash same = (s, ground arith)

    nothing : none ≡ some t → (r : Text) × (c ∷ s ≡ t ++ b'/' ∷ r)
    nothing k = ground arith

    longer :
        (u : Text)
        → (r : Text) × (s ≡ u ++ b'/' ∷ r)
        → some (c ∷ u) ≡ some t
        → (r : Text) × (c ∷ s ≡ t ++ b'/' ∷ r)
    longer u (r, at) same = (r, cc (same, at))

-- A folder of a path is the parent of the path or a folder of that parent.
parent_of_complete :
    (a path : Text) → IsFolderOf a path → (a ≡ parent_of path) ⊎ IsFolderOf a (parent_of path)
parent_of_complete a path (some_folder, r, at) =
    let (t, e, position) = before_last_slash_complete a r in
    elim position [
      | inl same ↦ inl (rw (at, e) same)
      | inr (q, later) ↦ inr (some_folder, q, rw (at, e) later)
    ]

parent_of_sound : (path : Text) → parent_of path ≢ [] → IsFolderOf (parent_of path) path
parent_of_sound path h = elim (Option-cases (before_last_slash path)) [
  | inl e ↦ elim (h (rw e refl)) [ ]
  | inr (t, e) ↦ let (r, at) = before_last_slash_sound path t e in (h, r, rw e at)
]

before_last_slash_shorter : (s t : Text) → before_last_slash s ≡ some t → length t < length s
before_last_slash_shorter s t h =
    let (r, at) = before_last_slash_sound s t h in rw at (omega (arith, length-append t (b'/' ∷ r)))

IsFolderOf-trans : (a b c : Text) → IsFolderOf a b → IsFolderOf b c → IsFolderOf a c
IsFolderOf-trans a b c (some_folder, r, p) (_, q, k) =
    (some_folder, r ++ b'/' ∷ q, rw (k, p) (append_assoc a (b'/' ∷ r) (b'/' ∷ q)))

folder_not_empty : (a path : Text) → IsFolderOf a path → path ≢ []
folder_not_empty [] path (k, r, at) e = k refl
folder_not_empty (c ∷ a) path (k, r, at) e = ground arith

parent_of-short : (path : Text) (n : ℕ) → length path ≤ suc n → length (parent_of path) ≤ n
parent_of-short path n short = elim (Option-cases (before_last_slash path)) [
  | inl e ↦ rw e (omega arith)
  | inr (t, e) ↦ rw e (omega (arith, before_last_slash_shorter path t e))
]

not_empty : (s : Text) → (length s == 0) ≡ false → s ≢ []
not_empty [] h e = ground arith
not_empty (c ∷ s) h e = ground arith

nothing_above : (a path : Text) → length path ≡ 0 → a ≢ [] → (a ≡ path) ⊎ IsFolderOf a path → ⊥
nothing_above a [] e k (inl at) = k at
nothing_above [] [] e k (inr (_, r, at)) = k refl
nothing_above (c ∷ a) [] e k (inr (_, r, at)) = ground arith
nothing_above a (c ∷ path) e k at = omega arith

module _ (paths : List Text) where
  -- No folder at or above a parent is a file, when the loop finds none.
  file_above_complete :
      (n : ℕ) (parent : Text)
      → length parent ≤ n
      → file_above n paths parent ≡ none
      → (a : Text) → a ≢ []
      → (a ≡ parent) ⊎ IsFolderOf a parent
      → includes paths a ≡ false
  unfolding file_above
  file_above_complete zero parent short h a some_folder at =
      elim (nothing_above a parent (omega arith) some_folder at) [ ]
  file_above_complete (suc n) parent short h a some_folder at =
      elim (Bool-cases (length parent == 0)) [
        | inl e ↦ elim (nothing_above a parent ((==_iff (length parent) 0).0 e) some_folder at) [ ]
        | inr e ↦ elim (Bool-cases (includes paths parent)) [
          | inl f ↦ found (rw (e, f) at h)
          | inr f ↦ elim at [
            | inl same ↦ rw same f
            | inr folder ↦
                file_above_complete n (parent_of parent) (parent_of-short parent n short)
                  (rw (e, f) at h) a some_folder (parent_of_complete a parent folder)
          ]
        ]
      ]
    where
      found : some parent ≡ none → includes paths a ≡ false
      found k = ground arith

  abbrev Above : Text → Text → Type 0
  Above parent f = (includes paths f ≡ true) × ((f ≡ parent) ⊎ IsFolderOf f parent) × (f ≢ [])

  Above-parent :
      (path f : Text) → Above (parent_of path) f → (includes paths f ≡ true) × IsFolderOf f path
  Above-parent path f (found, inl at, k) =
      (found, subst (λ x. IsFolderOf x path) (sym at) (parent_of_sound path (λ e. k (at ∙ e))))
  Above-parent path f (found, inr at, k) = (
    found,
    IsFolderOf-trans f (parent_of path) path at
        (parent_of_sound path (folder_not_empty f (parent_of path) at)),
  )

  file_above_sound : (n : ℕ) (parent f : Text) → file_above n paths parent ≡ some f → Above parent f
  unfolding file_above
  file_above_sound zero parent f h = ground arith
  file_above_sound (suc n) parent f h = elim (Bool-cases (length parent == 0)) [
    | inl e ↦ nothing (rw e at h)
    | inr e ↦ elim (Bool-cases (includes paths parent)) [
      | inl found ↦ here (not_empty parent e) found (rw (e, found) at h)
      | inr absent ↦ higher (file_above_sound n (parent_of parent) f (rw (e, absent) at h))
    ]
  ]
    where
      nothing : none ≡ some f → Above parent f
      nothing k = ground arith

      here : parent ≢ [] → includes paths parent ≡ true → some parent ≡ some f → Above parent f
      here k found same =
          let p : parent ≡ f = cc same in
          (subst (λ x. includes paths x ≡ true) p found, inl (sym p), λ e. k (p ∙ e))

      higher : Above (parent_of parent) f → Above parent f
      higher at = let (found, folder) = Above-parent parent f at in (found, inr folder, folder.0)

  -- The loop over the paths finds nothing just when no path is a folder of one of them.
  pub find_file_above_iff :
      (qs : List Text)
      → (find_file_above paths qs ≡ none)
        ↔ All (λ q. (a : Text) → IsFolderOf a q → includes paths a ≡ false) qs
  unfolding find_file_above
  find_file_above_iff [] = (λ h. tt, λ h. refl)
  find_file_above_iff (q ∷ qs) = elim (Option-cases (file_above (length q) paths (parent_of q))) [
    | inl e ↦ (
      λ h. (no_file e, (find_file_above_iff qs).0 (rw (find_file_above, e) at h)),
      λ (_, h). rw (find_file_above, e) ((find_file_above_iff qs).1 h),
    )
    | inr (f, e) ↦ (
      λ h. elim (some_file f (rw (find_file_above, e) at h)) [ ],
      λ (h, _). elim (a_file f e h) [ ],
    )
  ]
    where
      no_file :
          file_above (length q) paths (parent_of q) ≡ none
          → (a : Text) → IsFolderOf a q
          → includes paths a ≡ false
      no_file e a folder =
          file_above_complete (length q) (parent_of q) (parent_of-short q (length q) (omega arith))
            e a folder.0 (parent_of_complete a q folder)

      some_file : (f : Text) → some f ≡ none → ⊥
      some_file f k = ground arith

      a_file :
          (f : Text)
          → file_above (length q) paths (parent_of q) ≡ some f
          → ((a : Text) → IsFolderOf a q → includes paths a ≡ false)
          → ⊥
      a_file f e h =
          let (found, folder) = Above-parent q f (file_above_sound (length q) (parent_of q) f e) in
          let absent = h f folder in ground arith
