-- ===== src/Provider/Assembly.antt =====
-- `readBoundedBody` of provider-dispatcher.ts against the bytes of its stream.
use retrom.Prelude.{
  ℕ, suc, ◌+◌, ◌≤◌, ◌≡◌, refl, sym, ap, ◌∙◌, Bool, true, false, List, [], ◌∷◌, ◌++◌, some,
  append-nil, append_assoc, ltb, if◌then◌else◌, length, length-append, Bool-cases, inl, inr, arith,
}
use retrom.Provider.Effects.{
  Log, Outcome, returned, thrown, player, foreign, module_invalid, lock_released, continue,
  conclude, pure,
}
use retrom.Provider.Body.{
  Bytes, Stream, finished, broken, chunk, read_chunks, zeros, overwrite, set_bytes, fill,
  read_bounded_body,
}

-- All the bytes that a stream yields, and whether it ends without an exception.
unfoldable pub contents : Stream → Bytes
contents finished = []
contents broken = []
contents (chunk bytes rest) = bytes ++ contents rest

unfoldable pub ends : Stream → Bool
ends finished = true
ends broken = false
ends (chunk bytes rest) = ends rest

-- What a stream amounts to under a limit.
abbrev pub bounded_contents : Stream → ℕ → Outcome Bytes
bounded_contents stream maximum =
    if ltb maximum (length (contents stream))
    then thrown (player module_invalid)
    else if ends stream
    then returned (contents stream)
    else thrown foreign

unfoldable concat : List Bytes → Bytes
concat [] = []
concat (c ∷ cs) = c ++ concat cs

concat-snoc : (cs : List Bytes) (c : Bytes) → concat (cs ++ c ∷ []) ≡ concat cs ++ c
unfolding concat
concat-snoc [] c = append-nil c
concat-snoc (d ∷ cs) c = rw (concat-snoc cs c) (sym (append_assoc d (concat cs) c))

add_zero : (n : ℕ) → n + 0 ≡ n
add_zero n = omega arith

add_assoc : (a b c : ℕ) → (a + b) + c ≡ a + (b + c)
add_assoc a b c = omega arith

zero_add : (n : ℕ) → 0 + n ≡ n
zero_add n = omega arith

succ_add : (m n : ℕ) → suc m + n ≡ suc (m + n)
succ_add m n = omega arith

overwrite-zeros : (c : Bytes) (n : ℕ) → overwrite c (zeros (length c + n)) ≡ c ++ zeros n
unfolding overwrite zeros
overwrite-zeros [] n = ap zeros (zero_add n)
overwrite-zeros (b ∷ c) n =
    ap (λ k. overwrite (b ∷ c) (zeros k)) (succ_add (length c) n)
    ∙ ap (λ l. b ∷ l) (overwrite-zeros c n)

set_bytes-append : (p c q : Bytes) → set_bytes (length p) c (p ++ q) ≡ p ++ overwrite c q
unfolding set_bytes
set_bytes-append [] c q = refl
set_bytes-append (b ∷ p) c q = ap (λ l. b ∷ l) (set_bytes-append p c q)

fill-concat :
    (p : Bytes) (cs : List Bytes)
    → fill (p ++ zeros (length (concat cs))) (length p) cs ≡ p ++ concat cs
unfolding fill concat zeros
fill-concat p [] = refl
fill-concat p (c ∷ cs) =
    rw
      (
        length-append c (concat cs),
        set_bytes-append p c (zeros (length c + length (concat cs))),
        overwrite-zeros c (length (concat cs)),
        sym (append_assoc p c (zeros (length (concat cs)))),
        sym (length-append p c),
      )
      (fill-concat (p ++ c) cs ∙ append_assoc p c (concat cs))

unfoldable chunks_of : Stream → List Bytes
chunks_of finished = []
chunks_of broken = []
chunks_of (chunk bytes rest) = bytes ∷ chunks_of rest

concat-chunks_of : (stream : Stream) → concat (chunks_of stream) ≡ contents stream
unfolding concat chunks_of contents
concat-chunks_of finished = refl
concat-chunks_of broken = refl
concat-chunks_of (chunk bytes rest) = ap (λ l. bytes ++ l) (concat-chunks_of rest)

-- What the loop makes of a stream, behind chunks of `size` bytes.
abbrev loop_outcome : ℕ → ℕ → List Bytes → Stream → Outcome (ℕ × List Bytes)
loop_outcome maximum size cs stream =
    if ltb maximum (size + length (contents stream))
    then thrown (player module_invalid)
    else if ends stream
    then returned (size + length (contents stream), cs ++ chunks_of stream)
    else thrown foreign

read_chunks_lem :
    (maximum size : ℕ) (cs : List Bytes) (stream : Stream) (log : Log)
    → size ≤ maximum
    → read_chunks maximum size cs stream log ≡ (loop_outcome maximum size cs stream, log)
unfolding read_chunks contents ends chunks_of
read_chunks_lem maximum size cs finished log h =
    let fits : ltb maximum (size + 0) ≡ false = ground arith in
    rw (fits, append-nil cs, add_zero size) refl
read_chunks_lem maximum size cs broken log h =
    let fits : ltb maximum (size + 0) ≡ false = ground arith in rw fits refl
read_chunks_lem maximum size cs (chunk bytes rest) log h =
    elim (Bool-cases (ltb maximum (size + length bytes))) [
      | inl over ↦
          let total = length-append bytes (contents rest) in
          let over_all : ltb maximum (size + length (bytes ++ contents rest)) ≡ true =
            ground (arith, total) in
          rw (over, over_all) refl
      | inr fits ↦
          rw
            (
              fits,
              length-append bytes (contents rest),
              sym (add_assoc size (length bytes) (length (contents rest))),
              sym (append_assoc cs (bytes ∷ []) (chunks_of rest)),
            )
            (read_chunks_lem maximum (size + length bytes) (cs ++ bytes ∷ []) rest log
              (ground arith))
    ]

filled :
    (stream : Stream)
    → fill (zeros (length (contents stream))) 0 (chunks_of stream) ≡ contents stream
filled stream =
    ap (λ c. fill (zeros (length c)) 0 (chunks_of stream)) (sym (concat-chunks_of stream))
    ∙ fill-concat [] (chunks_of stream)
    ∙ concat-chunks_of stream

-- The end of `readBoundedBody`, behind its loop.
abbrev finish : Outcome (ℕ × List Bytes) × Log → Outcome Bytes × Log
finish r = continue (λ (size, chunks). pure (fill (zeros size) 0 chunks)) (conclude lock_released r)

finish_lem :
    (stream : Stream) (maximum : ℕ) (log : Log)
    → finish (loop_outcome maximum 0 [] stream, log)
      ≡ (bounded_contents stream maximum, log ++ lock_released ∷ [])
finish_lem stream maximum log = elim (Bool-cases (ltb maximum (length (contents stream)))) [
  | inl over ↦ rw (zero_add (length (contents stream)), over) refl
  | inr fits ↦ elim (Bool-cases (ends stream)) [
    | inl well ↦ rw (zero_add (length (contents stream)), fits, well, filled stream) refl
    | inr ill ↦ rw (zero_add (length (contents stream)), fits, ill) refl
  ]
]

-- Of a body that is a stream, all its bytes are returned in their order when they are at most the
-- maximum and the stream ends well. It is no valid module when they are more, and the exception of
-- the stream passes on otherwise. The lock is released in each case, and nothing else happens.
pub read_bounded_body_lem :
    (stream : Stream) (maximum : ℕ) (log : Log)
    → read_bounded_body (some stream) maximum log
      ≡ (bounded_contents stream maximum, log ++ lock_released ∷ [])
unfolding read_bounded_body
read_bounded_body_lem stream maximum log =
    ap finish (read_chunks_lem maximum 0 [] stream log (omega arith))
    ∙ finish_lem stream maximum log
