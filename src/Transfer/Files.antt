-- ===== src/Transfer/Files.antt =====
-- web/features/scans/upload-transfer.ts: the transfer of one file of a session, and its reports.
use retrom.Prelude.{
  ℕ, zero, suc, ◌+◌, min, Bool, false, List, [], ◌∷◌, ◌++◌, Option, none, some, ltb, ◌==◌,
  if◌then◌else◌, length, get_elem?,
}
use retrom.Transfer.Sending.{
  Network, out_of_fuel, Outcome, returned, failed, slice, retry_delays, send_chunk,
}

-- What is read of an upload session: `chunkSizeBytes`, and the `sizeBytes` of its files.
pub record UploadSession : Type 0 where
  pub chunk_size : ℕ
  pub sizes : List ℕ

-- The received bytes are `none` for NaN.
pub record UploadTotals : Type 0 where
  pub received_bytes : Option ℕ
  pub total_bytes : ℕ
  pub completed_files : ℕ
  pub total_files : ℕ

abbrev pub sum : List ℕ → ℕ
sum [] = 0
sum (n ∷ ns) = n + sum ns

-- A sum with a number that may be undefined.
abbrev pub add : Option ℕ → Option ℕ → Option ℕ
add none m = none
add (some n) none = none
add (some n) (some m) = some (n + m)

abbrev pub sum_received : List (Option ℕ) → Option ℕ
sum_received [] = some 0
sum_received (n ∷ ns) = add n (sum_received ns)

abbrev pub is_size : ℕ → Option ℕ → Bool
is_size size none = false
is_size size (some n) = n == size

-- The files whose received bytes are their size.
abbrev pub completed : List ℕ → List (Option ℕ) → ℕ
completed [] received = 0
completed (s ∷ sizes) [] = 0
completed (s ∷ sizes) (r ∷ received) =
    if is_size s r then suc (completed sizes received) else completed sizes received

-- The totals of a report.
unfoldable pub totals : UploadSession → List (Option ℕ) → UploadTotals
totals session received = record {
  received_bytes = sum_received received;
  total_bytes = sum session.sizes;
  completed_files = completed session.sizes received;
  total_files = length session.sizes;
}

-- `received[index] = n`.
abbrev pub set_received : ℕ → Option ℕ → List (Option ℕ) → List (Option ℕ)
set_received index n [] = []
set_received zero n (r ∷ rs) = n ∷ rs
set_received (suc index) n (r ∷ rs) = r ∷ set_received index n rs

module _ (network : Network) where
  -- The array `received`, the reports so far, and what is outside. A number of received bytes is
  -- `none` where it is undefined.
  pub record Progress : Type 0 where
    pub received : List (Option ℕ)
    pub reports : List UploadTotals
    pub world : network.World

  -- What follows a chunk: `report` is called with the new number of bytes.
  abbrev pub after_chunk :
      UploadSession
      → ℕ
      → (Progress → Outcome (Unit {0}) × Progress)
      → Progress
      → Outcome (Option ℕ) × network.World
      → Outcome (Unit {0}) × Progress
  after_chunk session index next p (failed e, w) = (failed e, record p { world = w })
  after_chunk session index next p (returned n, w) =
      let received = set_received index n p.received in
      next (record {
        received = received;
        reports = p.reports ++ totals session received ∷ [];
        world = w;
      })

  -- The next round of the loop, from an offset. One that is undefined is not below the size.
  abbrev pub round :
      UploadSession
      → List ℕ
      → ℕ
      → (Progress → Outcome (Unit {0}) × Progress)
      → Progress
      → Option (Option ℕ)
      → Outcome (Unit {0}) × Progress
  round session file index next p none = (returned tt, p)
  round session file index next p (some none) = (returned tt, p)
  round session file index next p (some (some offset)) =
      if ltb offset (length file)
      then after_chunk session index next p (
          send_chunk network index offset
            (slice file offset (min (length file) (offset + session.chunk_size))) retry_delays
            p.world)
      else (returned tt, p)

  -- The loop of `transferFile`, on fuel.
  unfoldable pub transfer_from :
      ℕ → UploadSession → List ℕ → ℕ → Progress → Outcome (Unit {0}) × Progress
  unfolding send_chunk totals
  transfer_from zero session file index p = (failed out_of_fuel, p)
  transfer_from (suc n) session file index p =
      round session file index (transfer_from n session file index) p (get_elem? p.received index)

  -- `transferFile`, on fuel for its rounds.
  unfoldable pub transfer_file :
      ℕ → UploadSession → List ℕ → ℕ → Progress → Outcome (Unit {0}) × Progress
  unfolding transfer_from
  transfer_file rounds session file index p = transfer_from rounds session file index p
