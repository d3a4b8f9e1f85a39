-- ===== src/Transfer/Rounds.antt =====
-- The measure by which the rounds of `transferFile` of upload-transfer.ts come to an end, and what
-- an answer of the server does to it.
use retrom.Prelude.{
  ℕ, ◌+◌, ◌*◌, ◌≤◌, ◌<◌, ◌≡◌, ◌≢◌, ap, ◌∙◌, subst, ◌⊎◌, inl, inr, List, [], ◌++◌, append-nil, ◌==◌,
  ==_iff, if◌then◌else◌, length, Bool-cases, arith,
}
use retrom.Transfer.Sending.{Network}
use retrom.Transfer.Protocol.{IsPrefix, Goes, Goes-IsPrefix, Goes-length, Goes-idle, prefix-length}

-- An offset that is not the number of the stored bytes is to be corrected first.
abbrev pub gap : ℕ → ℕ → ℕ
gap offset size = if offset == size then 0 else 1

module _ (network : Network) (base writing : network.World → List ℕ) (patience : network.World → ℕ)
    (file : List ℕ) where
  -- The stored bytes, with those that are being written, are a beginning of the file.
  abbrev pub HasBeginning : network.World → Type 0
  HasBeginning w = IsPrefix file (base w ++ writing w)

  -- An offset up to which the file is stored, unless it is one inside the file.
  abbrev pub Counts : ℕ → network.World → Type 0
  Counts offset w = (offset ≤ length (base w)) ⊎ (offset < length file)

  -- The rounds that are left have become fewer, since the server had stored `size` bytes and had
  -- some patience, and the client stood at `offset`.
  abbrev pub Fewer : ℕ → ℕ → ℕ → ℕ → network.World → Type 0
  Fewer size patient offset n w =
      2 * patience w + gap n (length (base w)) + 2 * size
      < 2 * patient + gap offset size + 2 * length (base w)

  module _ (size patient : ℕ) where
    abbrev pub Ready : network.World → Type 0
    Ready w = HasBeginning w × (size ≤ length (base w)) × (patience w ≤ patient)

    -- A chunk was refused for another offset, or because one is being written.
    abbrev pub Refused : ℕ → network.World → Type 0
    Refused offset w = ((writing w ≡ []) × (offset ≢ length (base w))) ⊎ (patience w < patient)

    pub Goes-Ready :
        (w v : network.World)
        → Goes (base w) (writing w) (base v) (writing v)
        → patience v ≤ patience w
        → Ready w
        → Ready v
    Goes-Ready w v goes less (prefix, more, patient_yet) =
        let longer = Goes-length (base w) (writing w) (base v) (writing v) goes in
        (
          Goes-IsPrefix file (base w) (writing w) (base v) (writing v) goes prefix,
          omega arith,
          omega arith,
        )

    pub told-Counts :
        (n : ℕ) (w : network.World)
        → HasBeginning w
        → (n ≡ length (base w)) ⊎ (n < length (base w ++ writing w))
        → Counts n w
    told-Counts n w prefix (inl e) = inl (omega arith)
    told-Counts n w prefix (inr less) =
        let whole = prefix-length file (base w ++ writing w) prefix in inr (omega arith)

    gap-le : (a b : ℕ) → gap a b ≤ 1
    gap-le a b = ground arith

    gap_refl : (a : ℕ) → gap a a ≡ 0
    gap_refl a = ground arith

    gap-ne : (a b : ℕ) → a ≢ b → gap a b ≡ 1
    gap-ne a b h = ground arith

    -- The count behind a refusal, by the session that is read at `v`.
    idle-Fewer :
        (offset n : ℕ) (w v : network.World)
        → Ready w
        → patience v ≤ patience w
        → offset ≢ length (base w)
        → base v ≡ base w
        → n ≡ length (base v)
        → Fewer size patient offset n v
    idle-Fewer offset n w v (prefix, more, yet) less differ same count =
        rw (count, gap_refl (length (base v)), same)
          (elim (Bool-cases (offset == size)) [
            | inl e ↦ omega (arith, (==_iff offset size).0 e)
            | inr e ↦ rw e (omega arith)
          ])

    idle-count :
        (n : ℕ) (v : network.World)
        → writing v ≡ []
        → length (base v) ≤ n
        → (n ≡ length (base v)) ⊎ (n < length (base v ++ writing v))
        → n ≡ length (base v)
    idle-count n v idle least (inl e) = e
    idle-count n v idle least (inr less) =
        let short : n < length (base v) =
          subst (λ s. n < length s) (ap (λ q. base v ++ q) idle ∙ append-nil (base v)) less in
        absurd (omega arith)

    pub Refused-Fewer :
        (offset n : ℕ) (w v : network.World)
        → Ready w
        → Ready v
        → Goes (base w) (writing w) (base v) (writing v)
        → patience v ≤ patience w
        → length (base v) ≤ n
        → (n ≡ length (base v)) ⊎ (n < length (base v ++ writing v))
        → Refused offset w
        → Fewer size patient offset n v
    Refused-Fewer offset n w v ready now goes less least count (inl (idle, differ)) =
        let (same, idle') = Goes-idle (base w) (writing w) (base v) (writing v) goes idle in
        idle-Fewer offset n w v ready less differ same (idle-count n v idle' least count)
    Refused-Fewer offset n w v ready now goes less least count (inr impatient) =
        omega (arith, gap-le n (length (base v)), now.1)

    pub acknowledged-Fewer :
        (offset n : ℕ) (w : network.World)
        → Ready w
        → size < length (base w)
        → n ≡ length (base w)
        → Fewer size patient offset n w
    acknowledged-Fewer offset n w (prefix, more, yet) grown count =
        rw (count, gap_refl (length (base w))) (omega arith)
