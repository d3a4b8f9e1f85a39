-- ===== src/Transfer/Stored.antt =====
-- What a server that keeps to the protocol has stored behind `transferFile` of upload-transfer.ts.
use retrom.Prelude.{
  ℕ, zero, suc, ◌+◌, ◌*◌, ◌-◌, ◌≤◌, ◌<◌, ◌≡◌, ◌≢◌, ap, ◌∙◌, min, false, inl, inr, List, [], ◌∷◌,
  ◌++◌, Option, none, some, ltb, length, drop, get_elem?, Bool-cases, ltb→lt, arith,
}
use retrom.Transfer.Sending.{
  out_of_fuel, Outcome, returned, failed, Network, retry_delays, take, send_chunk,
}
use retrom.Transfer.Files.{
  UploadSession, totals, set_received, Progress, after_chunk, transfer_from, transfer_file,
}
use retrom.Transfer.Protocol.{
  IsPrefix, KeepsProtocol, beginning-IsPrefix, chunk_some, full-IsPrefix, prefix-length,
  get-set_received,
}
use retrom.Transfer.Rounds.{HasBeginning, Counts, gap}
use retrom.Transfer.Sent.{Sent, send_chunk-Sent}

module _ (network : Network) (index : ℕ) (base writing : network.World → List ℕ)
    (patience : network.World → ℕ) (file : List ℕ)
    (protocol : KeepsProtocol network index (length file) base writing patience) where
  -- The stored bytes are a beginning of the file, and the client counts some of them, or a number
  -- inside the file.
  abbrev pub Follows : Progress network → Type 0
  Follows p =
      (offset : ℕ) × (get_elem? p.received index ≡ some (some offset))
      × HasBeginning network base writing patience file p.world
      × Counts network base writing patience file offset p.world

  -- What holds behind `transferFile`, and behind its loop from some offset on.
  abbrev pub Transferred : Outcome (Unit {0}) × Progress network → Type 0
  Transferred (returned _, p) =
      (base p.world ≡ file) × (get_elem? p.received index ≡ some (some (length file)))
  Transferred (failed e, p) = (e ≢ out_of_fuel) × Follows p

  -- Enough rounds from an offset.
  abbrev Enough : ℕ → ℕ → network.World → Type 0
  Enough n offset w =
      2 * length file + 2 * patience w + gap offset (length (base w)) < n + 2 * length (base w)

  -- What the next rounds do, when there are enough of them.
  abbrev NextOk : ℕ → (Progress network → Outcome (Unit {0}) × Progress network) → Type 0
  NextOk n next =
      (p : Progress network) (offset : ℕ)
      → get_elem? p.received index ≡ some (some offset)
      → HasBeginning network base writing patience file p.world
      → Counts network base writing patience file offset p.world
      → Enough n offset p.world
      → offset ≤ length file
      → Transferred (next p)

  stored-IsPrefix :
      (w : network.World)
      → HasBeginning network base writing patience file w
      → IsPrefix file (base w)
  stored-IsPrefix w prefix = beginning-IsPrefix file (base w) (writing w) prefix

  Counts-length :
      (offset : ℕ) (w : network.World)
      → HasBeginning network base writing patience file w
      → Counts network base writing patience file offset w
      → offset ≤ length file
  Counts-length offset w prefix (inl behind) =
      omega (arith, prefix-length file (base w) (stored-IsPrefix w prefix))
  Counts-length offset w prefix (inr inside) = omega arith

  module _ (session : UploadSession) (some_size : 1 ≤ session.chunk_size) where
    after_chunk-Transferred :
        (n : ℕ) (next : Progress network → Outcome (Unit {0}) × Progress network)
        (p : Progress network) (offset : ℕ)
        → NextOk n next
        → get_elem? p.received index ≡ some (some offset)
        → offset < length file
        → Enough (suc n) offset p.world
        → (r : Outcome (Option ℕ) × network.World)
        → Sent network index base writing patience file protocol
            (length (base p.world))
            (patience p.world)
            offset
            r
        → Transferred (after_chunk network session index next p r)
    after_chunk-Transferred n next p offset ok at short enough (failed e, w) (k, prefix) =
        (k, (offset, at, prefix, inr short))
    after_chunk-Transferred n next p offset ok at short enough (returned none, w) h = absurd h
    after_chunk-Transferred n next p offset ok at short enough (returned (some m), w)
          (prefix, counts, fewer) =
        ok
          (record {
            received = set_received index (some m) p.received;
            reports = p.reports ++ totals session (set_received index (some m) p.received) ∷ [];
            world = w;
          })
          m (get-set_received index (some m) (some offset) p.received at) prefix counts
          (omega arith) (Counts-length m w prefix counts)

    done-Transferred :
        (p : Progress network) (offset : ℕ)
        → get_elem? p.received index ≡ some (some offset)
        → HasBeginning network base writing patience file p.world
        → Counts network base writing patience file offset p.world
        → offset ≤ length file
        → ltb offset (length file) ≡ false
        → Transferred (returned tt, p)
    done-Transferred p offset at prefix counts inside done =
        let size : length file ≤ offset = ground arith in
        let behind : offset ≤ length (base p.world) = elim counts [
          | inl k ↦ k
          | inr k ↦ absurd (omega arith)
        ] in
        (
          full-IsPrefix file (base p.world) (stored-IsPrefix p.world prefix) (omega arith),
          at ∙ ap (λ x. some (some x)) (omega arith),
        )

    transfer_from-Transferred : (n : ℕ) → NextOk n (transfer_from network n session file index)
    unfolding transfer_from
    transfer_from-Transferred zero p offset at prefix counts enough inside =
        let whole = prefix-length file (base p.world) (stored-IsPrefix p.world prefix) in
        absurd (omega arith)
    transfer_from-Transferred (suc n) p offset at prefix counts enough inside =
        elim (Bool-cases (ltb offset (length file))) [
          | inl more ↦
              let short = ltb→lt offset (length file) more in
              let m = min (length file) (offset + session.chunk_size) - offset in
              rw (at, more)
                (after_chunk-Transferred n (transfer_from network n session file index) p offset
                  (transfer_from-Transferred n) at short enough
                  (send_chunk network index offset (take m (drop offset file)) retry_delays p.world)
                  (send_chunk-Sent network index base writing patience file protocol
                    (length (base p.world)) (patience p.world) offset m short
                    (chunk_some (length file) offset session.chunk_size short some_size)
                    retry_delays p.world (prefix, omega arith, omega arith)))
          | inr done ↦ rw (at, done) (done-Transferred p offset at prefix counts inside done)
        ]

    -- A transfer of a file begins where the server has stored a beginning of it, and is writing
    -- at most a chunk that continues it; the client counts no more bytes than are stored. Over
    -- a network that keeps to the protocol, and that refuses a chunk because one is being
    -- written so many times at most as its patience tells, with a chunk size of 1 or more, the
    -- loop ends: two rounds for each byte of the file and for each such refusal, and two more,
    -- are enough. If it returns, the server has stored the file for good, and the client counts
    -- all its bytes. If it fails, the server still has a beginning of the file, and the client
    -- counts no more bytes than are stored, or fewer than the file has.
    pub transfer_file-Transferred :
        (rounds : ℕ) (p : Progress network) (offset : ℕ)
        → get_elem? p.received index ≡ some (some offset)
        → offset ≤ length (base p.world)
        → IsPrefix file (base p.world ++ writing p.world)
        → 2 * length file + 2 * patience p.world + 2 ≤ rounds
        → Transferred (transfer_file network rounds session file index p)
    unfolding transfer_file
    transfer_file-Transferred rounds p offset at behind prefix enough =
        transfer_from-Transferred rounds p offset at prefix (inl behind) (ground arith)
          (Counts-length offset p.world prefix (inl behind))
