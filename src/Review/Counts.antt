-- ===== src/Review/Counts.antt =====
-- What the counts of review-approval.ts add up to.
use retrom.Prelude.{
  ℕ, zero, suc, ◌+◌, ◌%◌, ◌≡◌, refl, ap, subst, ◌&&◌, ◌||◌, List, [], ◌∷◌, ◌++◌, Option, none, some,
  ltb, ◌==◌, length, get_elem?, All, All-append, length-append, Bool-cases, inl, inr, arith,
}
use retrom.Review.Judging.{
  ReviewCandidate, ReviewReadiness, readiness_of, Verdict, unchecked, approvable, lacks_files,
  lacks_bios, mismatched, judge,
}
use retrom.Review.Batch.{
  ReviewApprovalSummary, State, fail, publish, check_off, settle_verdict, Settled, succeeds, fails,
  Event, begins, aborts, settles, goes_on, without, take_game, settle_at, step, run,
}
use retrom.Review.Publishable.{IsPublishable, judge-IsPublishable}

-- Each game that is checked is counted once, and each count but that of the approved games is the
-- number of its details.
pub record IsBalanced (s : ReviewApprovalSummary) : Type 0 where
  pub total_checked :
      s.checked ≡ s.approved + s.missing_bios + s.missing_files + s.crc_mismatch + s.failed
  pub all_failures : s.failed ≡ length s.failures
  pub all_bios : s.missing_bios ≡ length s.missing_bios_details
  pub all_files : s.missing_files ≡ length s.missing_file_details
  pub all_crc : s.crc_mismatch ≡ length s.crc_details

-- The invariant of a batch that ends at a number of checked games.
abbrev pub Sound : ℕ → ℕ → State → Type 0
Sound total end s =
    (s.summary.total ≡ total)
    × IsBalanced s.summary
    × (s.summary.checked + length s.waiting + length s.queue ≡ end)
    × All IsPublishable s.approvals

module _ (total : ℕ) where
  check_off-Sound :
      (end : ℕ) (summary : ReviewApprovalSummary) (s : State)
      → Sound total end (record s { summary = record summary { checked = summary.checked + 1 } })
      → Sound total end (check_off summary s)
  unfolding check_off publish
  check_off-Sound end summary s h =
      elim (Bool-cases
        ((summary.checked + 1) % 10 == 0 || (summary.checked + 1) == summary.total)) [
          | inl e ↦ rw e h
          | inr e ↦ rw e h
        ]

  fail-Sound :
      (end : ℕ) (game : ReviewCandidate) (status : Option ℕ) (s : State)
      → Sound total end s
      → Sound total (suc end) (check_off (fail game status s.summary) s)
  unfolding fail
  fail-Sound end game status s (t, b, e, a) =
      check_off-Sound (suc end) (fail game status s.summary) s (
        t,
        record {
          total_checked = omega (arith, b.total_checked);
          all_failures =
              omega (arith, b.all_failures, length-append s.summary.failures ((game, status) ∷ []));
          all_bios = b.all_bios;
          all_files = b.all_files;
          all_crc = b.all_crc;
        },
        omega arith,
        a,
      )

  settle_verdict-Sound :
      (end : ℕ) (game : ReviewCandidate) (o : Option ReviewReadiness) (v : Verdict) (s : State)
      → (v ≡ approvable → IsPublishable (game, o))
      → Sound total end s
      → Sound total (suc end) (settle_verdict game o v s)
  unfolding settle_verdict
  settle_verdict-Sound end game o unchecked s j h = fail-Sound end game none s h
  settle_verdict-Sound end game o approvable s j (t, b, e, a) = (
    t,
    b,
    omega (arith, length-append s.waiting (game ∷ [])),
    All-append IsPublishable s.approvals ((game, o) ∷ []) a (j refl, tt),
  )
  settle_verdict-Sound end game o (lacks_files members) s j (t, b, e, a) =
      check_off-Sound (suc end)
        (record s.summary {
          missing_files = s.summary.missing_files + 1;
          missing_file_details = s.summary.missing_file_details ++ (game, members) ∷ [];
        })
        s
        (
          t,
          record {
            total_checked = omega (arith, b.total_checked);
            all_failures = b.all_failures;
            all_bios = b.all_bios;
            all_files = omega (
              arith,
              b.all_files,
              length-append s.summary.missing_file_details ((game, members) ∷ []),
            );
            all_crc = b.all_crc;
          },
          omega arith,
          a,
        )
  settle_verdict-Sound end game o (lacks_bios requirements) s j (t, b, e, a) =
      check_off-Sound (suc end)
        (record s.summary {
          missing_bios = s.summary.missing_bios + 1;
          missing_bios_details = s.summary.missing_bios_details ++ (game, requirements) ∷ [];
        })
        s
        (
          t,
          record {
            total_checked = omega (arith, b.total_checked);
            all_failures = b.all_failures;
            all_bios = omega (
              arith,
              b.all_bios,
              length-append s.summary.missing_bios_details ((game, requirements) ∷ []),
            );
            all_files = b.all_files;
            all_crc = b.all_crc;
          },
          omega arith,
          a,
        )
  settle_verdict-Sound end game o (mismatched warnings) s j (t, b, e, a) =
      check_off-Sound (suc end)
        (record s.summary {
          crc_mismatch = s.summary.crc_mismatch + 1;
          crc_details = s.summary.crc_details ++ (game, warnings) ∷ [];
        })
        s
        (
          t,
          record {
            total_checked = omega (arith, b.total_checked);
            all_failures = b.all_failures;
            all_bios = b.all_bios;
            all_files = b.all_files;
            all_crc =
                omega
                  (arith, b.all_crc, length-append s.summary.crc_details ((game, warnings) ∷ []));
          },
          omega arith,
          a,
        )

  without-length :
      (i : ℕ) (xs : List ReviewCandidate) (x : ReviewCandidate)
      → get_elem? xs i ≡ some x
      → suc (length (without i xs)) ≡ length xs
  without-length i [] x h = ground arith
  without-length zero (y ∷ xs) x h = refl
  without-length (suc i) (y ∷ xs) x h = ap suc (without-length i xs x h)

  take_game-Sound :
      (end : ℕ) (readiness : List ReviewReadiness) (s : State) (queue : List ReviewCandidate)
      → s.queue ≡ queue
      → Sound total end s
      → Sound total end (take_game readiness s queue)
  take_game-Sound end readiness s [] q h = h
  take_game-Sound end readiness s (game ∷ queue) q (t, b, e, a) =
      let count : s.summary.checked + length s.waiting + suc (length queue) ≡ end = rw q at e in
      let sound =
        settle_verdict-Sound (s.summary.checked + length s.waiting + length queue) game
          (readiness_of game.id readiness) (judge game (readiness_of game.id readiness))
          (record s { queue = queue }) (judge-IsPublishable game readiness) (t, b, refl, a) in
      subst (λ n. Sound total n (take_game readiness s (game ∷ queue))) (omega arith) sound

  settle_at-Sound :
      (end i : ℕ) (settled : Settled) (s : State) (o : Option ReviewCandidate)
      → get_elem? s.waiting i ≡ o
      → Sound total end s
      → Sound total end (settle_at i settled s o)
  settle_at-Sound end i settled s none g h = h
  settle_at-Sound end i succeeds s (some game) g (t, b, e, a) =
      check_off-Sound end (record s.summary { approved = s.summary.approved + 1 })
        (record s { waiting = without i s.waiting })
        (
          t,
          record {
            total_checked = omega (arith, b.total_checked);
            all_failures = b.all_failures;
            all_bios = b.all_bios;
            all_files = b.all_files;
            all_crc = b.all_crc;
          },
          omega (arith, without-length i s.waiting game g),
          a,
        )
  settle_at-Sound end i (fails status) s (some game) g (t, b, e, a) =
      let count = without-length i s.waiting game g in
      let sound =
        fail-Sound (s.summary.checked + length (without i s.waiting) + length s.queue) game status
          (record s { waiting = without i s.waiting }) (t, b, refl, a) in
      subst (λ n. Sound total n (settle_at i (fails status) s (some game))) (omega arith) sound

  step-Sound :
      (end : ℕ) (readiness : List ReviewReadiness) (e : Event) (s : State)
      → Sound total end s
      → Sound total end (step readiness e s)
  unfolding step
  step-Sound end readiness begins s h =
      elim (Bool-cases (ltb (length s.waiting) s.workers && goes_on s)) [
        | inl c ↦ rw c (take_game-Sound end readiness s s.queue refl h)
        | inr c ↦ rw c h
      ]
  step-Sound end readiness aborts s h = h
  step-Sound end readiness (settles i settled) s h =
      settle_at-Sound end i settled s (get_elem? s.waiting i) refl h

  -- However the workers go: each game of a batch is counted once, is awaited or is still to be taken,
  -- the counts add up, and each approval that is asked for is of a game whose own readiness lets it be published.
  pub run-Sound :
      (end : ℕ) (readiness : List ReviewReadiness) (events : List Event) (s : State)
      → Sound total end s
      → Sound total end (run readiness events s)
  unfolding run
  run-Sound end readiness [] s h = h
  run-Sound end readiness (e ∷ events) s h =
      run-Sound end readiness events (step readiness e s) (step-Sound end readiness e s h)
