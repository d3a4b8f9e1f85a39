-- ===== src/Provider.antt =====
-- web/features/player/runtime/provider-dispatcher.ts: how a provider's module is loaded, and the
-- runtime that it makes.
pub mod Effects
pub mod Body
pub mod Fetching
pub mod Contract
pub mod Assembly
pub mod Rules
pub mod Verified
pub mod Loading
pub mod Agreement
pub mod Running
mod Tests
use retrom.Prelude.{Bool, true, false, not, ◌&&◌, List, Option, none, some}
use retrom.Text.{Text, lit}
use retrom.Value.{Value, bool}
use retrom.Envelope.Browser.{Platform}
use retrom.Envelope.Checks.{prop, on_record}
use retrom.Envelope.{validate_launch_envelope_boundary, validate_provider_module_reference}
use retrom.Provider.Effects.{
  Run, Error, pure, throw, emit, player, foreign, envelope_invalid, threads_unavailable,
  url_created, imported, url_revoked, runtime_created, cache_reclaimed, catch, finally, ◌>>=◌, ◌>>◌,
}
use retrom.Provider.Body.{Bytes}
use retrom.Provider.Fetching.{
  DispatcherEnvironment, await, require, module_error, fetch_provider_module,
}
use retrom.Provider.Contract.{
  Member, Imported, PlayerRuntime, validate_provider_module, validate_player_runtime,
}

-- What is foreign: the import of a module by its URL, and two functions of a module.
pub record Foreign : Type 1 where
  pub importer : Text → Option Imported
  pub create_runtime : List (Text × Member) → Value → Option PlayerRuntime
  pub Reclaimed : Type 0
  pub reclaim : List (Text × Member) → Option Reclaimed

-- `signal.throwIfAborted`.
abbrev pub throw_if_aborted : Bool → Run (Unit {0})
throw_if_aborted aborted = require (not aborted) foreign

-- The exception of the validators.
abbrev pub valid_or_throw : Option Value → Run Value
valid_or_throw none = throw (player envelope_invalid)
valid_or_throw (some v) = pure v

-- A property of a validated record.
abbrev pub record_of : Option Value → Value
record_of none = bool false
record_of (some v) = v

abbrev pub runtime_of : Value → Value
runtime_of envelope = record_of (prop "runtime" envelope)

abbrev pub is_true : Option Value → Bool
is_true (some (bool true)) = true
is_true _ = false

abbrev pub requires_threads : Value → Bool
requires_threads runtime =
    on_record (λ c. is_true (prop "requiresThreads" c)) (prop "capabilities" runtime)

module _ (environment : DispatcherEnvironment) (code : Foreign) where
  -- The import, with its `catch`.
  abbrev pub import_module : Text → Run Imported
  import_module url =
      catch (emit (imported url) >> await (code.importer url)) (λ _. throw module_error)

  -- `loadProviderModule`, behind the request.
  unfoldable pub import_bytes : Value → Bytes → Run (List (Text × Member))
  unfolding validate_provider_module
  import_bytes runtime bytes =
      let url = environment.create_module_url bytes in
      emit (url_created url)
      >> (finally (import_module url) (url_revoked url) >>= λ value.
          validate_provider_module value runtime)

  unfoldable pub load_provider_module : Value → Run (List (Text × Member))
  unfolding fetch_provider_module import_bytes
  load_provider_module runtime =
      fetch_provider_module environment runtime >>= λ bytes. import_bytes runtime bytes

  -- `loadInstalledProviderModule`, with whether its signal is aborted at each of the two tests.
  unfoldable pub load_installed_provider_module : Value → Bool → Bool → Run (List (Text × Member))
  unfolding load_provider_module validate_provider_module_reference
  load_installed_provider_module v before after = do
    throw_if_aborted before
    runtime ← valid_or_throw (validate_provider_module_reference v)
    provider ← load_provider_module runtime
    throw_if_aborted after
    pure provider

module _ (environment : DispatcherEnvironment) (code : Foreign) (platform : Platform) where
  -- The end of `loadProviderRuntime`: the runtime, the provider's module, and the threads.
  abbrev pub accept_runtime : Value → PlayerRuntime → Run PlayerRuntime
  accept_runtime envelope r = validate_player_runtime r (runtime_of envelope) >> pure r

  abbrev pub create_runtime : Value → List (Text × Member) → Run PlayerRuntime
  create_runtime envelope provider =
      emit runtime_created
      >> (await (code.create_runtime provider envelope) >>= accept_runtime envelope)

  abbrev pub lacks_threads : Value → Bool
  lacks_threads envelope =
      requires_threads (runtime_of envelope) && not environment.cross_origin_isolated

  abbrev pub run_envelope : Value → Run PlayerRuntime
  run_envelope envelope =
      require (not (lacks_threads envelope)) (player threads_unavailable)
      >> (load_provider_module environment code (runtime_of envelope) >>= create_runtime envelope)

  -- `loadProviderRuntime`.
  unfoldable pub load_provider_runtime : Value → Run PlayerRuntime
  unfolding load_provider_module validate_launch_envelope_boundary validate_player_runtime
  load_provider_runtime v =
      valid_or_throw (validate_launch_envelope_boundary platform v) >>= run_envelope

  -- `reclaimProviderContentCache`, likewise.
  unfoldable pub reclaim_provider_content_cache : Value → Bool → Bool → Run code.Reclaimed
  unfolding load_provider_module validate_launch_envelope_boundary
  reclaim_provider_content_cache v before after = do
    envelope ← valid_or_throw (validate_launch_envelope_boundary platform v)
    throw_if_aborted before
    provider ← load_provider_module environment code (runtime_of envelope)
    throw_if_aborted after
    emit cache_reclaimed
    await (code.reclaim provider)
