-- ===== src/Provider/Body.antt =====
-- web/features/player/runtime/provider-dispatcher.ts: the reading of a response's body.
use retrom.Prelude.{
  ℕ, zero, suc, ◌+◌, List, [], ◌∷◌, ◌++◌, Option, none, some, ltb, if◌then◌else◌, length,
}
use retrom.Provider.Effects.{
  Run, pure, throw, player, foreign, module_invalid, lock_released, finally, ◌>>=◌,
}

abbrev pub Bytes : Type 0
Bytes = List ℕ

-- What `reader.read` yields, call by call. A stream that never ends is not modelled.
pub data Stream : Type 0 where
  finished broken : Stream
  chunk : Bytes → Stream → Stream

-- The loop of `readBoundedBody`: the size and the chunks.
unfoldable pub read_chunks : ℕ → ℕ → List Bytes → Stream → Run (ℕ × List Bytes)
read_chunks maximum size chunks finished = pure (size, chunks)
read_chunks maximum size chunks broken = throw foreign
read_chunks maximum size chunks (chunk bytes rest) =
    let later = read_chunks maximum (size + length bytes) (chunks ++ bytes ∷ []) rest in
    if ltb maximum (size + length bytes) then throw (player module_invalid) else later

-- `new Uint8Array(size)`.
unfoldable pub zeros : ℕ → Bytes
zeros zero = []
zeros (suc n) = 0 ∷ zeros n

-- `bytes.set(chunk, offset)`, within the array.
unfoldable pub overwrite : Bytes → Bytes → Bytes
overwrite [] bytes = bytes
overwrite (c ∷ cs) [] = []
overwrite (c ∷ cs) (b ∷ bytes) = c ∷ overwrite cs bytes

unfoldable pub set_bytes : ℕ → Bytes → Bytes → Bytes
unfolding overwrite
set_bytes zero cs bytes = overwrite cs bytes
set_bytes (suc offset) cs [] = []
set_bytes (suc offset) cs (b ∷ bytes) = b ∷ set_bytes offset cs bytes

-- The loop that puts the chunks in the array.
unfoldable pub fill : Bytes → ℕ → List Bytes → Bytes
unfolding set_bytes
fill bytes offset [] = bytes
fill bytes offset (c ∷ cs) = fill (set_bytes offset c bytes) (offset + length c) cs

-- `readBoundedBody`, with `response.body`.
unfoldable pub read_bounded_body : Option Stream → ℕ → Run Bytes
unfolding read_chunks zeros fill
read_bounded_body none maximum = throw (player module_invalid)
read_bounded_body (some stream) maximum =
    finally (read_chunks maximum 0 [] stream) lock_released >>= λ (size, chunks).
    pure (fill (zeros size) 0 chunks)
