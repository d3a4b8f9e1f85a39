-- ===== src/Review/Between.antt =====
-- What holds between the batches of an approval of review-approval.ts.
use retrom.Prelude.{
  ℕ, zero, suc, ◌+◌, ◌≡◌, refl, ◌∙◌, subst, min, Bool, true, false, not, ◌&&◌, ◌⊎◌, List, [], ◌∷◌,
  Option, none, some, ltb, ◌==◌, length, drop, All, length-append, Bool-cases, inl, inr, arith,
}
use retrom.Review.Judging.{ReviewCandidate}
use retrom.Review.Batch.{ReviewApprovalSummary, State, fail, first, publish, stopped}
use retrom.Review.Approval.{
  BatchRun, unavailable, available, fail_all, batch, is_finished, approve_from,
}
use retrom.Review.Publishable.{IsPublishable}
use retrom.Review.Counts.{IsBalanced, Sound, run-Sound}

-- A summary whose failures are counted ahead of a number of checked games.
abbrev pub IsAhead : ℕ → ReviewApprovalSummary → Type 0
IsAhead n s = IsBalanced (record s { checked = s.checked + n })

fail-IsAhead :
    (n : ℕ) (game : ReviewCandidate) (status : Option ℕ) (s : ReviewApprovalSummary)
    → IsAhead n s
    → IsAhead (suc n) (fail game status s)
unfolding fail
fail-IsAhead n game status s b = record {
  total_checked = omega (arith, b.total_checked);
  all_failures = omega (arith, b.all_failures, length-append s.failures ((game, status) ∷ []));
  all_bios = b.all_bios;
  all_files = b.all_files;
  all_crc = b.all_crc;
}

fail_all-IsAhead :
    (n : ℕ) (status : Option ℕ) (games : List ReviewCandidate) (s : ReviewApprovalSummary)
    → IsAhead n s
    → IsAhead (n + length games) (fail_all status games s)
fail_all-IsAhead n status [] s b = subst (λ m. IsAhead m s) (omega arith) b
fail_all-IsAhead n status (game ∷ games) s b =
    subst (λ m. IsAhead m (fail_all status games (fail game status s))) (omega arith)
      (fail_all-IsAhead (suc n) status games (fail game status s) (fail-IsAhead n game status s b))

fail_all-same :
    (status : Option ℕ) (games : List ReviewCandidate) (s : ReviewApprovalSummary)
    → ((fail_all status games s).checked ≡ s.checked) × ((fail_all status games s).total ≡ s.total)
unfolding fail
fail_all-same status [] s = (refl, refl)
fail_all-same status (game ∷ games) s = fail_all-same status games (fail game status s)

pub zero_add : (n : ℕ) → 0 + n ≡ n
zero_add n = omega arith

-- The tests between two batches, for the three values that they read.
finished_parts :
    (waiting queue : ℕ) (halted : Bool)
    → ((waiting == 0) && not (ltb 0 queue && not halted)) ≡ true
    → (waiting ≡ 0) × ((halted ≡ true) ⊎ (queue ≡ 0))
finished_parts waiting queue true h = (ground arith, inl refl)
finished_parts waiting queue false h = (ground arith, inr (ground arith))

ends_parts :
    (left : ℕ) (halted : Bool) → (ltb 0 left && not halted) ≡ false → (halted ≡ true) ⊎ (left ≡ 0)
ends_parts left true h = inl refl
ends_parts left false h = inr (ground arith)

goes_on_parts : (left : ℕ) (halted : Bool) → (ltb 0 left && not halted) ≡ true → halted ≡ false
goes_on_parts left true h = ground arith
goes_on_parts left false h = refl

first_drop :
    (n : ℕ) (games : List ReviewCandidate)
    → length (first n games) + length (drop n games) ≡ length games
first_drop zero games = omega arith
first_drop (suc n) [] = omega arith
first_drop (suc n) (g ∷ games) = omega (arith, first_drop n games)

module _ (total : ℕ) where
  -- What holds between two batches, with the games that are left.
  abbrev pub Between : ℕ → State → Type 0
  Between left s =
      (s.summary.total ≡ total)
      × IsBalanced s.summary
      × (length s.waiting ≡ 0)
      × All IsPublishable s.approvals
      × ((stopped s ≡ true) ⊎ ((length s.queue ≡ 0) × (s.summary.checked + left ≡ total)))

  batch-Sound :
      (r : BatchRun) (items : List ReviewCandidate) (s : State)
      → s.summary.total ≡ total
      → IsBalanced s.summary
      → length s.waiting ≡ 0
      → length s.queue ≡ 0
      → All IsPublishable s.approvals
      → Sound total (s.summary.checked + length items) (batch r items s)
  unfolding batch publish
  batch-Sound (unavailable status) items s t b w q a =
      let (checked, same) = fail_all-same status items s.summary in
      let ahead : IsAhead 0 s.summary = record {
        total_checked = omega (arith, b.total_checked);
        all_failures = b.all_failures;
        all_bios = b.all_bios;
        all_files = b.all_files;
        all_crc = b.all_crc;
      } in
      (
        same ∙ t,
        subst (λ n. IsAhead n (fail_all status items s.summary)) (zero_add (length items))
            (fail_all-IsAhead 0 status items s.summary ahead),
        omega arith,
        a,
      )
  batch-Sound (available readiness events) items s t b w q a =
      run-Sound total (s.summary.checked + length items) readiness events
        (record s { queue = items; waiting = []; workers = min 3 (length items) })
        (t, b, omega arith, a)

  -- A batch whose workers have come to their end.
  finished-Between :
      (end left : ℕ) (s : State)
      → Sound total end s
      → is_finished s ≡ true
      → end + left ≡ total
      → Between left s
  finished-Between end left s (t, b, e, a) h enough =
      let (waiting, last) = finished_parts (length s.waiting) (length s.queue) (stopped s) h in
      (
        t,
        b,
        waiting,
        a,
        elim last [ inl halted ↦ inl halted | inr queue ↦ inr (queue, omega arith) ],
      )

  stopped-Between :
      (left : ℕ) (s : State)
      → Between left s
      → (ltb 0 left && not (stopped s)) ≡ false
      → Between 0 s
  stopped-Between left s (t, b, w, a, last) h = (
    t,
    b,
    w,
    a,
    elim (ends_parts left (stopped s) h) [
      | inl halted ↦ inl halted
      | inr none_left ↦ elim last [
        | inl halted ↦ inl halted
        | inr (queue, count) ↦ inr (queue, omega arith)
      ]
    ],
  )

  next-Between :
      (r : BatchRun) (games : List ReviewCandidate) (s : State)
      → Between (length games) s
      → (ltb 0 (length games) && not (stopped s)) ≡ true
      → is_finished (batch r (first 100 games) s) ≡ true
      → Between (length (drop 100 games)) (batch r (first 100 games) s)
  next-Between r games s (t, b, w, a, inl halted) h k =
      elim (clash (goes_on_parts (length games) (stopped s) h)) [ ]
    where
      clash : stopped s ≡ false → ⊥
      clash e = ground arith
  next-Between r games s (t, b, w, a, inr (queue, count)) h k =
      finished-Between (s.summary.checked + length (first 100 games)) (length (drop 100 games))
        (batch r (first 100 games) s) (batch-Sound r (first 100 games) s t b w queue a) k
        (omega (arith, first_drop 100 games))

  pub approve_from-Between :
      (runs : List BatchRun) (games : List ReviewCandidate) (s t : State)
      → Between (length games) s
      → approve_from runs games s ≡ some t
      → Between 0 t
  unfolding approve_from
  approve_from-Between [] games s t h e =
      elim (Bool-cases (ltb 0 (length games) && not (stopped s))) [
        | inl more ↦ elim (nothing (rw more at e)) [ ]
        | inr done ↦
            subst (Between 0) (same (rw done at e)) (stopped-Between (length games) s h done)
      ]
    where
      nothing : none ≡ some t → ⊥
      nothing k = ground arith

      same : some s ≡ some t → s ≡ t
      same k = cc k
  approve_from-Between (r ∷ runs) games s t h e =
      elim (Bool-cases (ltb 0 (length games) && not (stopped s))) [
        | inl more ↦ elim (Bool-cases (is_finished (batch r (first 100 games) s))) [
          | inl finished ↦
              approve_from-Between runs (drop 100 games) (batch r (first 100 games) s) t
                (next-Between r games s h more finished) (rw (more, finished) at e)
          | inr unfinished ↦ elim (nothing (rw (more, unfinished) at e)) [ ]
        ]
        | inr done ↦
            subst (Between 0) (same (rw done at e)) (stopped-Between (length games) s h done)
      ]
    where
      nothing : none ≡ some t → ⊥
      nothing k = ground arith

      same : some s ≡ some t → s ≡ t
      same k = cc k
