-- ===== src/Transfer/Sent.antt =====
-- What a server that keeps to the protocol has stored behind `sendChunk` of upload-transfer.ts.
use retrom.Prelude.{
  ℕ, ◌≤◌, ◌<◌, ◌≡◌, ◌≢◌, refl, sym, ap, ◌∙◌, subst, true, inl, inr, List, [], ◌∷◌, ◌++◌, Option,
  none, some, ltb, ◌==◌, ==_iff, within, length, drop, Bool-cases, Option-cases, arith,
}
use retrom.Transfer.Sending.{
  Answer, rejected, answered, Failure, no_answer, out_of_fuel, status, Outcome, returned, failed,
  Network, take, body_of, received_bytes, handle_answer, attempt, wait_then, send_chunk,
}
use retrom.Transfer.Rounds
use retrom.Transfer.Protocol.{
  IsPrefix, KeepsProtocol, Goes-IsPrefix, Goes-length, Settles-IsPrefix, Settles-length,
  chunk-IsPrefix, longer_chunk,
}

module _ (network : Network) (index : ℕ) (base writing : network.World → List ℕ)
    (patience : network.World → ℕ) (file : List ℕ)
    (protocol : KeepsProtocol network index (length file) base writing patience) where
  abbrev HasBeginning : network.World → Type 0
  HasBeginning = Rounds.HasBeginning network base writing patience file

  module _ (size patient : ℕ) where
    abbrev Ready : network.World → Type 0
    Ready = Rounds.Ready network base writing patience file size patient

    abbrev Refused : ℕ → network.World → Type 0
    Refused = Rounds.Refused network base writing patience file size patient

    -- What holds behind `sendChunk`.
    abbrev pub Sent : ℕ → Outcome (Option ℕ) × network.World → Type 0
    Sent offset (returned none, w) = ⊥
    Sent offset (returned (some n), w) =
        HasBeginning w
        × Rounds.Counts network base writing patience file n w
        × Rounds.Fewer network base writing patience file size patient offset n w
    Sent offset (failed e, w) = (e ≢ out_of_fuel) × HasBeginning w

    abbrev AgainOk : ℕ → (Failure → network.World → Outcome (Option ℕ) × network.World) → Type 0
    AgainOk offset again =
        (e : Failure) (w : network.World) → e ≢ out_of_fuel → Ready w → Sent offset (again e w)

    session-Sent :
        (offset : ℕ) (w : network.World)
        → Ready w
        → Refused offset w
        → Sent offset (received_bytes network index w)
    session-Sent offset w ready refused =
        let v = (network.session_files w).1 in
        let goes = protocol.reads w in
        let now =
          Rounds.Goes-Ready network base writing patience file size patient w v goes
            (protocol.read_patience w) ready in
        elim (Option-cases (network.session_files w).0) [
          | inl e ↦ rw e ((λ k. ground arith), now.0)
          | inr (files, e) ↦
              let (n, at, least, count) = protocol.tells w files e in
              rw (e, at)
                (
                  now.0,
                  Rounds.told-Counts network base writing patience file size patient n v now.0
                      count,
                  Rounds.Refused-Fewer network base writing patience file size patient offset n w v
                      ready now goes (protocol.read_patience w) least count refused,
                )
        ]

    answer-Sent :
        (offset : ℕ) (again : Failure → network.World → Outcome (Option ℕ) × network.World)
        (answer : Answer) (w : network.World)
        → AgainOk offset again
        → ((code : ℕ) (received : Option ℕ)
            → answer ≡ answered code (some received)
            → within 200 299 code ≡ true
            → (size < length (base w)) × (received ≡ some (length (base w))))
        → ((body : Option (Option ℕ)) → answer ≡ answered 409 body → Refused offset w)
        → Ready w
        → Sent offset (handle_answer network again index answer w)
    answer-Sent offset again rejected w ok acknowledged conflicting ready =
        elim (Bool-cases (network.is_aborted w)) [
          | inl e ↦ rw e ((λ k. ground arith), ready.0)
          | inr e ↦ rw e (ok no_answer w (λ k. ground arith) ready)
        ]
    answer-Sent offset again (answered code body) w ok acknowledged conflicting ready =
        elim (Bool-cases (within 200 299 code)) [
          | inl fine ↦ rw fine (body_Sent body fine refl)
          | inr not_fine ↦ elim (Bool-cases (code == 409)) [
            | inl conflict ↦
                rw (not_fine, conflict)
                  (session-Sent offset w ready
                    (conflicting body (ap (λ c. answered c body) ((==_iff code 409).0 conflict))))
            | inr e ↦ elim (Bool-cases (ltb code 500)) [
              | inl final ↦ rw (not_fine, e, final) ((λ k. ground arith), ready.0)
              | inr later ↦ rw (not_fine, e, later) (ok (status code) w (λ k. ground arith) ready)
            ]
          ]
        ]
      where
        body_Sent :
            (b : Option (Option ℕ))
            → within 200 299 code ≡ true
            → body ≡ b
            → Sent offset (body_of b, w)
        body_Sent none fine e = ((λ k. ground arith), ready.0)
        body_Sent (some received) fine e =
            let (grown, count) = acknowledged code received (ap (λ b. answered code b) e) fine in
            rw count (
              ready.0,
              inl (omega arith),
              Rounds.acknowledged-Fewer network base writing patience file size patient offset
                  (length (base w)) w ready grown refl,
            )

    module _ (offset m : ℕ) (short : offset < length file) (some_bytes : 1 ≤ m) where
      abbrev chunk_bytes : List ℕ
      chunk_bytes = take m (drop offset file)

      -- A chunk at the end of a beginning of the file.
      taken-IsPrefix :
          (s : List ℕ) → offset ≡ length s → IsPrefix file s → IsPrefix file (s ++ chunk_bytes)
      taken-IsPrefix s at prefix =
          subst (λ n. IsPrefix file (s ++ take m (drop n file))) (sym at)
            (chunk-IsPrefix file s m prefix)

      put-Ready : (w : network.World) → Ready w → Ready (network.put index offset chunk_bytes w).1
      put-Ready w ready = elim (protocol.puts offset chunk_bytes w) [
        | inl goes ↦
            Rounds.Goes-Ready network base writing patience file size patient w
              (network.put index offset chunk_bytes w).1 goes
              (protocol.put_patience offset chunk_bytes w) ready
        | inr (s, settles, at, goes) ↦
            let v = (network.put index offset chunk_bytes w).1 in
            let prefix = Settles-IsPrefix file (base w) (writing w) s settles ready.0 in
            let longer = Settles-length (base w) (writing w) s settles in
            let longer' = Goes-length s chunk_bytes (base v) (writing v) goes in
            let patient_yet = protocol.put_patience offset chunk_bytes w in
            (
              Goes-IsPrefix file s chunk_bytes (base v) (writing v) goes
                  (taken-IsPrefix s at prefix),
              omega (arith, ready.1),
              omega (arith, ready.2),
            )
      ]

      acknowledged-longer :
          (w : network.World) (code : ℕ) (received : Option ℕ)
          → Ready w
          → (network.put index offset chunk_bytes w).0 ≡ answered code (some received)
          → within 200 299 code ≡ true
          → (size < length (base (network.put index offset chunk_bytes w).1))
            × (received ≡ some (length (base (network.put index offset chunk_bytes w).1)))
      acknowledged-longer w code received ready e fine =
          let (s, settles, at, stored, count) =
            protocol.acknowledges offset chunk_bytes w code received e fine in
          let prefix = Settles-IsPrefix file (base w) (writing w) s settles ready.0 in
          let longer = Settles-length (base w) (writing w) s settles in
          let grown : length s < length (s ++ chunk_bytes) =
            subst (λ x. length s < length (s ++ take m (drop x file))) (sym at)
              (longer_chunk file s m prefix (omega arith) some_bytes) in
          (rw stored (omega (arith, ready.1)), count ∙ ap (λ x. some (length x)) (sym stored))

      conflict-Refused :
          (w : network.World) (body : Option (Option ℕ))
          → Ready w
          → (network.put index offset chunk_bytes w).0 ≡ answered 409 body
          → Refused offset (network.put index offset chunk_bytes w).1
      conflict-Refused w body ready e =
          elim (protocol.conflicts offset chunk_bytes w body short e) [
            | inl other ↦ inl other
            | inr less ↦ inr (omega (arith, ready.2))
          ]

      attempt-Sent :
          (again : Failure → network.World → Outcome (Option ℕ) × network.World) (w : network.World)
          → AgainOk offset again
          → Ready w
          → Sent offset (attempt network again index offset chunk_bytes w)
      attempt-Sent again w ok ready = elim (Bool-cases (network.is_aborted w)) [
        | inl e ↦ rw e ((λ k. ground arith), ready.0)
        | inr e ↦ rw e (
            answer-Sent offset again (network.put index offset chunk_bytes w).0
              (network.put index offset chunk_bytes w).1 ok
              (λ code received. acknowledged-longer w code received ready)
              (λ body. conflict-Refused w body ready) (put-Ready w ready))
      ]

      wait-Sent :
          (next : network.World → Outcome (Option ℕ) × network.World) (delay : ℕ)
          (w : network.World)
          → ((v : network.World) → Ready v → Sent offset (next v))
          → Ready w
          → Sent offset (wait_then network next (network.wait delay w))
      wait-Sent next delay w ok ready =
          let v = (network.wait delay w).1 in
          let now =
            Rounds.Goes-Ready network base writing patience file size patient w v
              (protocol.waits delay w) (protocol.wait_patience delay w) ready in
          elim (Bool-cases (network.wait delay w).0) [
            | inl e ↦ rw e (ok v now)
            | inr e ↦ rw e ((λ k. ground arith), now.0)
          ]

      pub send_chunk-Sent :
          (delays : List ℕ) (w : network.World)
          → Ready w
          → Sent offset (send_chunk network index offset chunk_bytes delays w)
      unfolding send_chunk
      send_chunk-Sent [] w ready = attempt-Sent (λ e v. (failed e, v)) w (λ e v k r. (k, r.0)) ready
      send_chunk-Sent (delay ∷ delays) w ready =
          attempt-Sent
            (λ e v.
              wait_then network (send_chunk network index offset chunk_bytes delays)
                (network.wait delay v))
            w
            (λ e v k r.
              wait-Sent (send_chunk network index offset chunk_bytes delays) delay v
                (send_chunk-Sent delays) r)
            ready
