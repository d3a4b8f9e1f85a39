-- ===== src/Transfer/SampleServer.antt =====
-- A server of one file that keeps to the protocol of an upload, for the tests: its first chunk is
-- being written for a while, and the answer to it is lost.
use retrom.Prelude.{
  ℕ, zero, suc, ◌≤◌, ◌<◌, ◌≡◌, ◌≢◌, refl, subst, Bool, true, false, ◌⊎◌, inl, inr, List, [], ◌∷◌,
  ◌++◌, Option, none, some, ◌==◌, ==_iff, if◌then◌else◌, length, get_elem?, Bool-cases, arith,
}
use retrom.Transfer.Sending.{Answer, rejected, answered, Network}
use retrom.Transfer.Protocol.{Goes, Settles, KeepsProtocol}

-- The bytes stored, those being written, how many chunks are refused before these are stored, and
-- whether the answer to the next chunk is lost.
pub record Stored : Type 0 where
  pub bytes : List ℕ
  pub chunk : List ℕ
  pub refusals : ℕ
  pub loses : Bool

-- A chunk is taken, or refused for its offset.
abbrev take_chunk : ℕ → List ℕ → List ℕ → ℕ → Bool → Answer × Stored
take_chunk offset chunk bytes refusals loses =
    if offset == length bytes
    then (if loses
        then (rejected, record { bytes = bytes; chunk = chunk; refusals = refusals; loses = false })
        else (
          answered 200 (some (some (length (bytes ++ chunk)))),
          record { bytes = bytes ++ chunk; chunk = []; refusals = refusals; loses = false },
        ))
    else (
      answered 409 none,
      record { bytes = bytes; chunk = []; refusals = refusals; loses = loses },
    )

abbrev put_bytes : ℕ → List ℕ → List ℕ → List ℕ → ℕ → Bool → Answer × Stored
put_bytes offset chunk bytes [] refusals loses = take_chunk offset chunk bytes refusals loses
put_bytes offset chunk bytes (x ∷ q) zero loses =
    take_chunk offset chunk (bytes ++ x ∷ q) zero loses
put_bytes offset chunk bytes (x ∷ q) (suc refusals) loses =
    (answered 409 none, record { bytes = bytes; chunk = x ∷ q; refusals = refusals; loses = loses })

abbrev pub server : Network
server = record {
  World = Stored;
  is_aborted = λ w. false;
  put = λ index offset chunk w. put_bytes offset chunk w.bytes w.chunk w.refusals w.loses;
  session_files = λ w. (some (length w.bytes ∷ []), w);
  wait = λ delay w. (true, w);
}

-- What an answer to a chunk says, with the bytes and the refusals before it.
abbrev Puts : ℕ → List ℕ → List ℕ → List ℕ → Answer × Stored → Type 0
Puts offset chunk b q (answer, v) =
    Goes b q v.bytes v.chunk
    ⊎ ((s : List ℕ) × Settles b q s × (offset ≡ length s) × Goes s chunk v.bytes v.chunk)

abbrev Acknowledges : ℕ → List ℕ → List ℕ → List ℕ → Answer × Stored → Type 0
Acknowledges offset chunk b q (answer, v) =
    (code : ℕ) (received : Option ℕ)
    → answer ≡ answered code (some received)
    → (s : List ℕ) × Settles b q s
      × (offset ≡ length s)
      × (v.bytes ≡ s ++ chunk)
      × (received ≡ some (length (s ++ chunk)))

abbrev Conflicts : ℕ → ℕ → Answer × Stored → Type 0
Conflicts offset refusals (answer, v) =
    (body : Option (Option ℕ))
    → answer ≡ answered 409 body
    → ((v.chunk ≡ []) × (offset ≢ length v.bytes)) ⊎ (v.refusals < refusals)

abbrev Keeps : ℕ → List ℕ → List ℕ → List ℕ → ℕ → Answer × Stored → Type 0
Keeps offset chunk b q refusals r =
    Puts offset chunk b q r
    × Acknowledges offset chunk b q r
    × Conflicts offset refusals r
    × (r.1.refusals ≤ refusals)

same_received :
    (code n m : ℕ) (received : Option ℕ)
    → answered n (some (some m)) ≡ answered code (some received)
    → received ≡ some m
same_received code n m received h = cc h

not_acknowledged :
    (code n : ℕ) (received : Option ℕ) → answered n none ≡ answered code (some received) → ⊥
not_acknowledged code n received h = ground arith

not_conflict :
    (n : Option ℕ) (body : Option (Option ℕ)) → answered 200 (some n) ≡ answered 409 body → ⊥
not_conflict n body h = ground arith

not_answered : (n : ℕ) (body : Option (Option ℕ)) → rejected ≡ answered n body → ⊥
not_answered n body h = ground arith

differs : (a b : ℕ) → (a == b) ≡ false → a ≢ b
differs a b e = ground arith

take_chunk-Keeps :
    (offset : ℕ) (chunk b q s : List ℕ) (refusals : ℕ) (loses : Bool)
    → Settles b q s
    → Goes b q s []
    → Keeps offset chunk b q refusals (take_chunk offset chunk s refusals loses)
take_chunk-Keeps offset chunk b q s refusals true settles goes =
    elim (Bool-cases (offset == length s)) [
      | inl e ↦
          let at = (==_iff offset (length s)).0 e in
          rw e (
            inr (s, settles, at, inl (refl, inl refl)),
            λ code received h. absurd (not_answered code (some received) h),
            λ body h. absurd (not_answered 409 body h),
            omega arith,
          )
      | inr e ↦ rw e (
        inl goes,
        λ code received h. absurd (not_acknowledged code 409 received h),
        λ body h. inl (refl, differs offset (length s) e),
        omega arith,
      )
    ]
take_chunk-Keeps offset chunk b q s refusals false settles goes =
    elim (Bool-cases (offset == length s)) [
      | inl e ↦
          let at = (==_iff offset (length s)).0 e in
          rw e (
            inr (s, settles, at, inr (refl, refl)),
            λ code received h.
                (s, settles, at, refl, same_received code 200 (length (s ++ chunk)) received h),
            λ body h. absurd (not_conflict (some (length (s ++ chunk))) body h),
            omega arith,
          )
      | inr e ↦ rw e (
        inl goes,
        λ code received h. absurd (not_acknowledged code 409 received h),
        λ body h. inl (refl, differs offset (length s) e),
        omega arith,
      )
    ]

put_bytes-Keeps :
    (offset : ℕ) (chunk b q : List ℕ) (refusals : ℕ) (loses : Bool)
    → Keeps offset chunk b q refusals (put_bytes offset chunk b q refusals loses)
put_bytes-Keeps offset chunk b [] refusals loses =
    take_chunk-Keeps offset chunk b [] b refusals loses (inl refl) (inl (refl, inl refl))
put_bytes-Keeps offset chunk b (x ∷ q) zero loses =
    take_chunk-Keeps offset chunk b (x ∷ q) (b ++ x ∷ q) zero loses (inr refl) (inr (refl, refl))
put_bytes-Keeps offset chunk b (x ∷ q) (suc refusals) loses = (
  inl (inl (refl, inl refl)),
  λ code received h. absurd (not_acknowledged code 409 received h),
  λ body h. inr (omega arith),
  omega arith,
)

told :
    (bytes files : List ℕ)
    → some (length bytes ∷ []) ≡ some files
    → get_elem? files 0 ≡ some (length bytes)
told bytes files h = subst (λ fs. get_elem? fs 0 ≡ some (length bytes)) (list_injective h) refl
  where
    list_injective : some (length bytes ∷ []) ≡ some files → length bytes ∷ [] ≡ files
    list_injective k = cc k

pub server-KeepsProtocol : KeepsProtocol server 0 3 (λ w. w.bytes) (λ w. w.chunk) (λ w. w.refusals)
server-KeepsProtocol = record {
  puts = λ offset chunk w. (put_bytes-Keeps offset chunk w.bytes w.chunk w.refusals w.loses).0;
  acknowledges = λ offset chunk w code received h fine.
      (put_bytes-Keeps offset chunk w.bytes w.chunk w.refusals w.loses).1 code received h;
  conflicts = λ offset chunk w body below h.
      (put_bytes-Keeps offset chunk w.bytes w.chunk w.refusals w.loses).2 body h;
  tells = λ w files e. (length w.bytes, told w.bytes files e, omega arith, inl refl);
  reads = λ w. inl (refl, inl refl);
  waits = λ delay w. inl (refl, inl refl);
  put_patience =
      λ offset chunk w. (put_bytes-Keeps offset chunk w.bytes w.chunk w.refusals w.loses).3;
  read_patience = λ w. omega arith;
  wait_patience = λ delay w. omega arith;
}
