-- ===== src/Review/Publishable.antt =====
-- Which games the tests of review-approval.ts let through.
use retrom.Prelude.{
  ◌≡◌, ◌∙◌, subst, Bool, true, false, List, [], ◌∷◌, Option, none, some, ◌==◌, ==_iff, length,
  Bool-cases, Option-cases, inl, inr, arith,
}
use retrom.Text.{Text, same, same_sound}
use retrom.Review.Judging.{
  ReviewCandidate, ReviewReadiness, readiness_of, eligible, approvable, judge_eligible, judge,
}

-- What its own readiness must say of a game that is approved.
abbrev pub IsPublishable : ReviewCandidate × Option ReviewReadiness → Type 0
IsPublishable (game, o) =
    (r : ReviewReadiness) × (o ≡ some r)
    × (r.id ≡ game.id)
    × (r.error ≡ none)
    × (r.version ≡ game.version)
    × (r.bios_satisfied ≡ some true)
    × (length r.missing_rom_members ≡ 0)
    × (length r.crc_warnings ≡ 0)

eligible-some :
    (game : ReviewCandidate) (r : ReviewReadiness) (b : Bool)
    → eligible game r ≡ some b
    → (r.error ≡ none) × (r.version ≡ game.version) × (r.bios_satisfied ≡ some b)
eligible-some game r b h = elim (Option-cases r.error) [
  | inr (message, e) ↦ elim (nothing (rw e at h)) [ ]
  | inl e ↦ elim (Option-cases r.bios_satisfied) [
    | inl k ↦ elim (nothing (rw (e, k) at h)) [ ]
    | inr (c, k) ↦ elim (Bool-cases (r.version == game.version)) [
      | inl same ↦ (e, (==_iff r.version game.version).0 same, k ∙ rw (e, k, same) at h)
      | inr other ↦ elim (nothing (rw (e, k, other) at h)) [ ]
    ]
  ]
]
  where
    nothing : none ≡ some b → ⊥
    nothing k = ground arith

judge_eligible-approvable :
    (r : ReviewReadiness) (o : Option Bool)
    → judge_eligible r o ≡ approvable
    → (o ≡ some true) × (length r.missing_rom_members ≡ 0) × (length r.crc_warnings ≡ 0)
judge_eligible-approvable r none h = ground arith
judge_eligible-approvable r (some false) h = ground arith
judge_eligible-approvable r (some true) h = ground arith

some_injective : (x r : ReviewReadiness) → some x ≡ some r → x ≡ r
some_injective x r h = cc h

-- The readiness that is found is that of the game.
readiness_of-id :
    (id : Text) (rs : List ReviewReadiness) (r : ReviewReadiness)
    → readiness_of id rs ≡ some r
    → r.id ≡ id
unfolding readiness_of
readiness_of-id id [] r h = ground arith
readiness_of-id id (x ∷ rs) r h = elim (Option-cases (readiness_of id rs)) [
  | inr (y, e) ↦ readiness_of-id id rs r (e ∙ rw e at h)
  | inl e ↦ elim (Bool-cases (same x.id id)) [
    | inl k ↦ subst (λ y. y.id ≡ id) (some_injective x r (rw (e, k) at h)) (same_sound x.id id k)
    | inr k ↦ elim (nothing (rw (e, k) at h)) [ ]
  ]
]
  where
    nothing : none ≡ some r → ⊥
    nothing k = ground arith

judge-some :
    (game : ReviewCandidate) (r : ReviewReadiness)
    → judge game (some r) ≡ approvable
    → (eligible game r ≡ some true)
      × (length r.missing_rom_members ≡ 0)
      × (length r.crc_warnings ≡ 0)
unfolding judge
judge-some game r h = judge_eligible-approvable r (eligible game r) h

judge-none : (game : ReviewCandidate) → judge game none ≡ approvable → ⊥
unfolding judge
judge-none game h = ground arith

pub judge-IsPublishable :
    (game : ReviewCandidate) (readiness : List ReviewReadiness)
    → judge game (readiness_of game.id readiness) ≡ approvable
    → IsPublishable (game, readiness_of game.id readiness)
judge-IsPublishable game readiness h = elim (Option-cases (readiness_of game.id readiness)) [
  | inl e ↦ elim (judge-none game (rw e at h)) [ ]
  | inr (r, e) ↦
      let (yes_to, files, crc) = judge-some game r (rw e at h) in
      let (error, version, bios) = eligible-some game r true yes_to in
      (r, e, readiness_of-id game.id readiness r e, error, version, bios, files, crc)
]
