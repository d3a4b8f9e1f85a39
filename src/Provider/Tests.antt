-- ===== src/Provider/Tests.antt =====
-- The dispatcher of provider-dispatcher.ts on concrete input.
use retrom.Prelude.{ℕ, ◌≡◌, refl, true, false, List, [], ◌∷◌, ◌++◌, Option, none, some}
use retrom.Text.{Text, lit, same, precedes}
use retrom.Regex.{test}
use retrom.Envelope.Texts.{code_points}
use retrom.Decimal.{decimal_ℤ}
use retrom.Value.{Value, str, has_own}
use retrom.Envelope.Checks.{prop, get, to_text, is_record, own_keys}
use retrom.Envelope.Samples.{envelope, browser, reference, runtime}
use retrom.Provider.Effects.{
  returned, thrown, player, module_invalid, digest_invalid, requested, lock_released,
}
use retrom.Provider.Body.{Bytes, Stream, finished, chunk, read_bounded_body}
use retrom.Provider.Fetching.{DispatcherEnvironment, Response}
use retrom.Provider.Contract.{Member, text, number, function, exports, PlayerRuntime}
use retrom.Provider.{Foreign, load_provider_module, load_provider_runtime}
use retrom.Provider.Rules.{Ensures}
use retrom.Provider.Verified.{module_url}
use retrom.Provider.Effects.{runtime_created}
use retrom.Provider.Contract.{valid_session_capabilities}
use retrom.Provider.Loading.{import_log, IsLoaded, HasNotLoaded, load-Ensures}
use retrom.Provider.Assembly.{bounded_contents, read_bounded_body_lem}
use retrom.Provider.Running.{IsStarted, IsStartLog, load_provider_runtime-Ensures}
use retrom.Provider.Agreement.{Agree, valid_session_capabilities-Agree}

abbrev script : Bytes
script = b'o' ∷ b'k' ∷ []

abbrev answer : Stream → Response
answer stream = record {
  ok = true;
  content_type = some (lit "text/javascript; charset=utf-8");
  content_length = some (lit "2");
  body = some stream;
}

-- A browser that answers each request in two chunks, with one digest for all bytes.
abbrev environment : DispatcherEnvironment
environment = record {
  create_module_url = λ bytes. lit "blob:1";
  cross_origin_isolated = false;
  fetcher = λ url. some (answer (chunk (b'o' ∷ []) (chunk (b'k' ∷ []) finished)));
  sha256 = λ bytes. some (lit "cccccccccccccccccccccccccccccccccccccccccccccccccccccccccccccccc");
}

abbrev exported_by : Text → List (Text × Member)
exported_by version =
    (lit "clearContentCache", function)
    ∷ (lit "createRuntime", function)
    ∷ (lit "inspectContentCache", function)
    ∷ (lit "providerApiVersion", number 1)
    ∷ (lit "providerId", text (lit "emu"))
    ∷ (lit "providerVersion", text version)
    ∷ (lit "reclaimContentCache", function)
    ∷ []

abbrev exported : List (Text × Member)
exported = exported_by (lit "1.2.0")

abbrev capabilities : Option Value
capabilities = prop "capabilities" runtime

abbrev made : PlayerRuntime
made = record {
  is_object = true;
  member = λ name. function;
  get_state = returned (some (str (lit "CREATED")));
  get_capabilities = returned capabilities;
}

abbrev code : Foreign
code = record {
  importer = λ url. some (exports exported);
  create_runtime = λ provider envelope. some made;
  Reclaimed = ℕ;
  reclaim = λ provider. some 7;
}

loads :
    load_provider_module environment code reference []
    ≡ (returned exported, import_log (module_url reference) (lit "blob:1"))
unfolding load_provider_module to_text get same test precedes
loads = refl

-- An import that is rejected: the URL is revoked all the same.
rejected_import :
    load_provider_module environment (record code { importer = λ url. none }) reference []
    ≡ (thrown (player module_invalid), import_log (module_url reference) (lit "blob:1"))
unfolding load_provider_module to_text get same test precedes
rejected_import = refl

-- A body that is longer than it is declared to be, and one with another digest.
wrong_length :
    load_provider_module
      (record environment {
        fetcher = λ url. some (answer (chunk (b'o' ∷ b'k' ∷ b'!' ∷ []) finished));
      })
      code
      reference
      []
    ≡ (thrown (player module_invalid), requested (module_url reference) ∷ lock_released ∷ [])
unfolding load_provider_module to_text get same test precedes
wrong_length = refl

wrong_digest :
    load_provider_module (record environment { sha256 = λ bytes. some (lit "0") }) code reference []
    ≡ (thrown (player digest_invalid), requested (module_url reference) ∷ lock_released ∷ [])
unfolding load_provider_module to_text get same test precedes
wrong_digest = refl

abbrev later_code : Foreign
later_code = record code { importer = λ url. some (exports (exported_by (lit "1.2.0-rc.1"))) }

starts :
    (load_provider_runtime environment later_code browser envelope []).1
    ≡ import_log (module_url runtime) (lit "blob:1") ++ runtime_created ∷ []
unfolding load_provider_runtime to_text get same test precedes is_record code_points own_keys
    decimal_ℤ
starts = refl

load-Ensures_example :
    Ensures
      (IsLoaded environment code reference)
      (HasNotLoaded environment code reference)
      (load_provider_module environment code reference [])
load-Ensures_example = load-Ensures environment code reference

load_provider_runtime-Ensures_example :
    Ensures
      (IsStarted environment later_code browser envelope)
      (λ e log. IsStartLog environment later_code browser envelope log)
      (load_provider_runtime environment later_code browser envelope [])
load_provider_runtime-Ensures_example =
    load_provider_runtime-Ensures environment later_code browser envelope

read_bounded_body_lem_example :
    read_bounded_body (some (chunk script (chunk script finished))) 3 []
    ≡ (bounded_contents (chunk script (chunk script finished)) 3, lock_released ∷ [])
read_bounded_body_lem_example = read_bounded_body_lem (chunk script (chunk script finished)) 3 []

capabilities_agree : valid_session_capabilities capabilities capabilities ≡ true
unfolding valid_session_capabilities get same own_keys is_record precedes has_own
capabilities_agree = refl

valid_session_capabilities-Agree_example :
    (a : Value) × (e : Value) × (capabilities ≡ some a) × (capabilities ≡ some e) × Agree a e
valid_session_capabilities-Agree_example =
    valid_session_capabilities-Agree capabilities capabilities capabilities_agree
