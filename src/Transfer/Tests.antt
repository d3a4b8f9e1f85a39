-- ===== src/Transfer/Tests.antt =====
-- The upload of upload-transfer.ts on concrete selections and a concrete server.
use retrom.Prelude.{ℕ, String, ◌≡◌, refl, true, false, ◌↔◌, List, [], ◌∷◌, none, some, arith}
use retrom.Text.{Text, lit}
use retrom.Transfer.Selection.{UploadEntry, repeated, file_and_folder, unsafe_path, upload_problem}
use retrom.Transfer.Uploadable.{IsUploadable}
use retrom.Transfer.Verdict.{upload_problem_iff}
use retrom.Transfer.Sending.{returned}
use retrom.Transfer.Files.{UploadSession, Progress, totals, transfer_file}
use retrom.Transfer.SampleServer.{server, server-KeepsProtocol}
use retrom.Transfer.Stored.{Transferred, transfer_file-Transferred}

abbrev entry : String → List ℕ → UploadEntry
entry path bytes = record { path = lit path; file = bytes }

abbrev roms : List UploadEntry
roms = entry "nes/a.nes" (1 ∷ 2 ∷ []) ∷ entry "nes/b.nes" (3 ∷ []) ∷ []

roms_pass : upload_problem roms ≡ none
unfolding upload_problem retrom.Text.same
roms_pass = refl

repeated_fails : upload_problem (entry "a" [] ∷ entry "a" [] ∷ []) ≡ some (repeated (lit "a"))
unfolding upload_problem retrom.Text.same
repeated_fails = refl

folder_fails :
    upload_problem (entry "a/b/c" [] ∷ entry "a" [] ∷ []) ≡ some (file_and_folder (lit "a"))
unfolding upload_problem retrom.Text.same
folder_fails = refl

parent_fails : upload_problem (entry "../a" [] ∷ []) ≡ some (unsafe_path (lit "../a"))
unfolding upload_problem retrom.Text.same
parent_fails = refl

upload_problem_iff_example : (upload_problem roms ≡ none) ↔ IsUploadable roms
upload_problem_iff_example = upload_problem_iff roms

abbrev session : UploadSession
session = record { chunk_size = 2; sizes = 3 ∷ [] }

abbrev file : List ℕ
file = 7 ∷ 8 ∷ 9 ∷ []

-- The answer to the first chunk is lost, and the next one is refused while that is being written.
abbrev start : Progress server
start = record {
  received = some 0 ∷ [];
  reports = [];
  world = record { bytes = []; chunk = []; refusals = 1; loses = true };
}

lost_answer : transfer_file server 10 session file 0 start ≡ (
  returned tt,
  record {
    received = some 3 ∷ [];
    reports =
        totals session (some 0 ∷ [])
        ∷ totals session (some 2 ∷ [])
        ∷ totals session (some 3 ∷ [])
        ∷ [];
    world = record { bytes = file; chunk = []; refusals = 0; loses = false };
  },
)
unfolding transfer_file
lost_answer = refl

transfer_file-Transferred_example :
    Transferred server 0
      (λ w. w.bytes)
      (λ w. w.chunk)
      (λ w. w.refusals)
      file
      server-KeepsProtocol
      (transfer_file server 10 session file 0 start)
transfer_file-Transferred_example =
    transfer_file-Transferred server 0 (λ w. w.bytes) (λ w. w.chunk) (λ w. w.refusals) file
      server-KeepsProtocol session (omega arith) 10 start 0 refl (omega arith) (file, refl)
      (omega arith)
