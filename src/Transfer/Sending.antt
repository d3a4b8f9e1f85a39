-- ===== src/Transfer/Sending.antt =====
-- web/features/scans/upload-transfer.ts: the transfer of a file, chunk by chunk.
use retrom.Prelude.{
  ℕ, zero, suc, ◌-◌, Bool, true, false, List, [], ◌∷◌, Option, none, some, ltb, ◌==◌, if◌then◌else◌,
  drop, get_elem?, within,
}

-- The answer to a request: the promise is rejected, or a status with its body, `none` if that is no
-- JSON or is null. Of a body `receivedBytes` is read, which is `none` where it is undefined.
pub data Answer : Type 0 where
  rejected : Answer
  answered : ℕ → Option (Option ℕ) → Answer

-- Why a transfer fails: the signal is aborted, a request is rejected, an answer has no body, its
-- status is an error, or the state of the session cannot be read. The last is no exception.
pub data Failure : Type 0 where
  aborted no_answer no_body unreadable out_of_fuel : Failure
  status : ℕ → Failure

pub data Outcome (A : Type 0) : Type 0 where
  returned : A → Outcome A
  failed : Failure → Outcome A

-- What is foreign: the signal, a PUT of a chunk (file, offset and bytes), the `receivedBytes` of
-- the files of the session, and a wait that tells whether it came to its end.
pub record Network : Type 1 where
  pub World : Type 0
  pub is_aborted : World → Bool
  pub put : ℕ → ℕ → List ℕ → World → Answer × World
  pub session_files : World → Option (List ℕ) × World
  pub wait : ℕ → World → Bool × World

abbrev pub retry_delays : List ℕ
retry_delays = 1000 ∷ 2000 ∷ 4000 ∷ 8000 ∷ 16000 ∷ []

abbrev pub take {ℓ} : {A : Type ℓ} → ℕ → List A → List A
take zero xs = []
take (suc n) [] = []
take (suc n) (x ∷ xs) = x ∷ take n xs

-- `file.slice`.
abbrev pub slice {ℓ} : {A : Type ℓ} → List A → ℕ → ℕ → List A
slice xs start end = take (end - start) (drop start xs)

abbrev pub number_of : Option ℕ → Outcome (Option ℕ)
number_of none = failed unreadable
number_of (some n) = returned (some n)

abbrev pub received_of : ℕ → Option (List ℕ) → Outcome (Option ℕ)
received_of index none = failed unreadable
received_of index (some files) = number_of (get_elem? files index)

-- `(payload as Schema<"UploadProgress">).receivedBytes`.
abbrev pub body_of : Option (Option ℕ) → Outcome (Option ℕ)
body_of none = failed no_body
body_of (some received) = returned received

module _ (network : Network) where
  -- An attempt to send a chunk fails for good, or in a way that may be tried again.
  abbrev Again : Type 0
  Again = Failure → network.World → Outcome (Option ℕ) × network.World

  -- `receivedBytes`.
  abbrev pub received_bytes : ℕ → network.World → Outcome (Option ℕ) × network.World
  received_bytes index w =
      let (files, w1) = network.session_files w in (received_of index files, w1)

  -- What an answer leads to.
  abbrev pub handle_answer : Again → ℕ → Answer → network.World → Outcome (Option ℕ) × network.World
  handle_answer again index rejected w =
      if network.is_aborted w then (failed no_answer, w) else again no_answer w
  handle_answer again index (answered code received) w =
      if within 200 299 code
      then (body_of received, w)
      else if code == 409
      then received_bytes index w
      else if ltb code 500
      then (failed (status code), w)
      else again (status code) w

  -- A round of the loop of `sendChunk`.
  abbrev pub attempt : Again → ℕ → ℕ → List ℕ → network.World → Outcome (Option ℕ) × network.World
  attempt again index offset chunk w =
      if network.is_aborted w
      then (failed aborted, w)
      else let (answer, w1) = network.put index offset chunk w in
        handle_answer again index answer w1

  abbrev pub wait_then :
      (network.World → Outcome (Option ℕ) × network.World)
      → Bool × network.World
      → Outcome (Option ℕ) × network.World
  wait_then next (true, w) = next w
  wait_then next (false, w) = (failed aborted, w)

  -- `sendChunk`, with the delays that are left.
  unfoldable pub send_chunk :
      ℕ → ℕ → List ℕ → List ℕ → network.World → Outcome (Option ℕ) × network.World
  send_chunk index offset chunk [] w = attempt (λ e w1. (failed e, w1)) index offset chunk w
  send_chunk index offset chunk (delay ∷ delays) w =
      attempt (λ e w1. wait_then (send_chunk index offset chunk delays) (network.wait delay w1))
        index offset chunk w
