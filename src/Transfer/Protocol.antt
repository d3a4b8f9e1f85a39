-- ===== src/Transfer/Protocol.antt =====
-- The protocol of an upload (docs/http-api-contract.md; internal/service/scans/upload.go and
-- internal/storage/uploads.go), and lemmas on the beginnings of a file.
use retrom.Prelude.{
  ℕ, zero, suc, ◌+◌, ◌-◌, ◌≤◌, ◌<◌, ◌≡◌, ◌≢◌, refl, sym, ap, subst, ◌∙◌, min, true, ◌⊎◌, inl, inr,
  List, [], ◌∷◌, ◌++◌, Option, some, within, length, drop, get_elem?, arith, append_assoc,
  append-nil, length-append,
}
use retrom.Transfer.Sending.{answered, Network, take}
use retrom.Transfer.Files.{set_received}

abbrev pub IsPrefix : List ℕ → List ℕ → Type 0
IsPrefix file s = (rest : List ℕ) × (file ≡ s ++ rest)

-- What becomes of the stored bytes and of a chunk that is being written: it is still being written,
-- it is given up, or it is stored.
abbrev pub Goes : List ℕ → List ℕ → List ℕ → List ℕ → Type 0
Goes base chunk base' chunk' =
    ((base' ≡ base) × ((chunk' ≡ chunk) ⊎ (chunk' ≡ [])))
    ⊎ ((base' ≡ base ++ chunk) × (chunk' ≡ []))

-- The stored bytes when nothing is being written any more.
abbrev pub Settles : List ℕ → List ℕ → List ℕ → Type 0
Settles base chunk base' = (base' ≡ base) ⊎ (base' ≡ base ++ chunk)

-- The protocol for one file of a size, with the bytes of it that the server has stored for good, those of a
-- chunk that it is still writing, and how often yet it refuses a chunk because it is writing one. A
-- chunk is taken when nothing is being written and its offset is the number of the stored bytes. An
-- answer of success tells that it is stored, with their new number; 409, at an offset below the
-- size, tells that the offset is another one or that a chunk is being written. The session tells the number of the stored bytes, or
-- counts some but not all bytes of a chunk that is being written. Any answer may be lost.
pub record KeepsProtocol (network : Network) (index size : ℕ)
    (base writing : network.World → List ℕ) (patience : network.World → ℕ) : Type 0 where
  pub puts :
      (offset : ℕ) (chunk : List ℕ) (w : network.World)
      → Goes
          (base w)
          (writing w)
          (base (network.put index offset chunk w).1)
          (writing (network.put index offset chunk w).1)
        ⊎ ((s : List ℕ) × Settles (base w) (writing w) s
            × (offset ≡ length s)
            × Goes s chunk
                (base (network.put index offset chunk w).1)
                (writing (network.put index offset chunk w).1))
  pub acknowledges :
      (offset : ℕ) (chunk : List ℕ) (w : network.World) (code : ℕ) (received : Option ℕ)
      → (network.put index offset chunk w).0 ≡ answered code (some received)
      → within 200 299 code ≡ true
      → (s : List ℕ) × Settles (base w) (writing w) s
        × (offset ≡ length s)
        × (base (network.put index offset chunk w).1 ≡ s ++ chunk)
        × (received ≡ some (length (s ++ chunk)))
  pub conflicts :
      (offset : ℕ) (chunk : List ℕ) (w : network.World) (body : Option (Option ℕ))
      → offset < size
      → (network.put index offset chunk w).0 ≡ answered 409 body
      → ((writing (network.put index offset chunk w).1 ≡ [])
          × (offset ≢ length (base (network.put index offset chunk w).1)))
        ⊎ (patience (network.put index offset chunk w).1 < patience w)
  pub tells :
      (w : network.World) (files : List ℕ)
      → (network.session_files w).0 ≡ some files
      → (n : ℕ) × (get_elem? files index ≡ some n)
        × (length (base (network.session_files w).1) ≤ n)
        × ((n ≡ length (base (network.session_files w).1))
            ⊎ (n
                < length (base (network.session_files w).1 ++ writing (network.session_files w).1)))
  pub reads :
      (w : network.World)
      → Goes
          (base w)
          (writing w)
          (base (network.session_files w).1)
          (writing (network.session_files w).1)
  pub waits :
      (delay : ℕ) (w : network.World)
      → Goes (base w) (writing w) (base (network.wait delay w).1) (writing (network.wait delay w).1)
  pub put_patience :
      (offset : ℕ) (chunk : List ℕ) (w : network.World)
      → patience (network.put index offset chunk w).1 ≤ patience w
  pub read_patience : (w : network.World) → patience (network.session_files w).1 ≤ patience w
  pub wait_patience :
      (delay : ℕ) (w : network.World) → patience (network.wait delay w).1 ≤ patience w

pub beginning-IsPrefix : (file s t : List ℕ) → IsPrefix file (s ++ t) → IsPrefix file s
beginning-IsPrefix file s t (rest, at) = (t ++ rest, at ∙ append_assoc s t rest)

idle-IsPrefix : (file s : List ℕ) → IsPrefix file s → IsPrefix file (s ++ [])
idle-IsPrefix file s p = subst (IsPrefix file) (sym (append-nil s)) p

length-le-append : (s t : List ℕ) → length s ≤ length (s ++ t)
length-le-append s t = omega (arith, length-append s t)

pub Goes-IsPrefix :
    (file b q b' q' : List ℕ) → Goes b q b' q' → IsPrefix file (b ++ q) → IsPrefix file (b' ++ q')
Goes-IsPrefix file b q b' q' (inl (e, inl k)) p = rw (e, k) p
Goes-IsPrefix file b q b' q' (inl (e, inr k)) p =
    rw (e, k) (idle-IsPrefix file b (beginning-IsPrefix file b q p))
Goes-IsPrefix file b q b' q' (inr (e, k)) p = rw (e, k) (idle-IsPrefix file (b ++ q) p)

pub Goes-length : (b q b' q' : List ℕ) → Goes b q b' q' → length b ≤ length b'
Goes-length b q b' q' (inl (e, k)) = rw e (omega arith)
Goes-length b q b' q' (inr (e, k)) = rw e (length-le-append b q)

-- What is idle stays so.
pub Goes-idle : (b q b' q' : List ℕ) → Goes b q b' q' → q ≡ [] → (b' ≡ b) × (q' ≡ [])
Goes-idle b q b' q' (inl (e, inl k)) idle = (e, k ∙ idle)
Goes-idle b q b' q' (inl (e, inr k)) idle = (e, k)
Goes-idle b q b' q' (inr (e, k)) idle = (e ∙ rw idle (append-nil b), k)

pub Settles-IsPrefix :
    (file b q s : List ℕ) → Settles b q s → IsPrefix file (b ++ q) → IsPrefix file s
Settles-IsPrefix file b q s (inl e) p = rw e (beginning-IsPrefix file b q p)
Settles-IsPrefix file b q s (inr e) p = rw e p

pub Settles-length : (b q s : List ℕ) → Settles b q s → length b ≤ length s
Settles-length b q s (inl e) = rw e (omega arith)
Settles-length b q s (inr e) = rw e (length-le-append b q)

take-drop : (n : ℕ) (xs : List ℕ) → take n xs ++ drop n xs ≡ xs
take-drop zero xs = refl
take-drop (suc n) [] = refl
take-drop (suc n) (x ∷ xs) = ap (λ ys. x ∷ ys) (take-drop n xs)

drop-append : (s rest : List ℕ) → drop (length s) (s ++ rest) ≡ rest
drop-append [] rest = refl
drop-append (x ∷ s) rest = drop-append s rest

take-some : (n : ℕ) (xs : List ℕ) → 1 ≤ n → 1 ≤ length xs → 1 ≤ length (take n xs)
take-some zero xs h k = omega arith
take-some (suc n) [] h k = omega arith
take-some (suc n) (x ∷ xs) h k = omega arith

-- A chunk of a file goes on a stored prefix.
pub chunk-IsPrefix :
    (file s : List ℕ) (m : ℕ) → IsPrefix file s → IsPrefix file (s ++ take m (drop (length s) file))
chunk-IsPrefix file s m (rest, at) = (
  drop m rest,
  rw (at, drop-append s rest, append_assoc s (take m rest) (drop m rest), take-drop m rest) refl,
)

pub longer_chunk :
    (file s : List ℕ) (m : ℕ)
    → IsPrefix file s
    → length s < length file
    → 1 ≤ m
    → length s < length (s ++ take m (drop (length s) file))
longer_chunk file s m (rest, at) short some_bytes =
    let long : length file ≡ length s + length rest = rw at (length-append s rest) in
    let same : drop (length s) file ≡ rest = rw at (drop-append s rest) in
    let more = take-some m rest some_bytes (omega arith) in
    rw same (omega (arith, length-append s (take m rest)))

pub chunk_some : (size offset k : ℕ) → offset < size → 1 ≤ k → 1 ≤ min size (offset + k) - offset
chunk_some size offset k h l = omega arith

-- A prefix that is as long as the file is the file.
pub full-IsPrefix : (file s : List ℕ) → IsPrefix file s → length file ≤ length s → s ≡ file
full-IsPrefix file s ([], at) long = sym (at ∙ append-nil s)
full-IsPrefix file s (x ∷ rest, at) long =
    let total : length file ≡ length s + suc (length rest) = rw at (length-append s (x ∷ rest)) in
    ground arith

pub prefix-length : (file s : List ℕ) → IsPrefix file s → length s ≤ length file
prefix-length file s (rest, at) =
    let total : length file ≡ length s + length rest = rw at (length-append s rest) in omega arith

pub get-set_received :
    (index : ℕ) (n old : Option ℕ) (rs : List (Option ℕ))
    → get_elem? rs index ≡ some old
    → get_elem? (set_received index n rs) index ≡ some n
get-set_received index n old [] h = ground arith
get-set_received zero n old (r ∷ rs) h = refl
get-set_received (suc index) n old (r ∷ rs) h = get-set_received index n old rs h
