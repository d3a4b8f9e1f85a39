-- ===== src/Provider/Loading.antt =====
-- `loadProviderModule` of provider-dispatcher.ts: what a returned module has passed, the errors, and
-- the events.
use retrom.Prelude.{◌≡◌, ◌⊎◌, refl, inl, inr, true, List, [], ◌∷◌, some, Option-cases}
use retrom.Text.{Text}
use retrom.Value.{Value}
use retrom.Provider.Effects.{
  Error, Log, requested, lock_released, url_created, imported, url_revoked, pure,
}
use retrom.Provider.Body.{Bytes}
use retrom.Provider.Fetching.{DispatcherEnvironment, module_error, fetch_provider_module}
use retrom.Provider.Contract.{
  Member, Imported, exports, no_record, is_provider_module, validate_provider_module,
}
use retrom.Provider.{Foreign, import_bytes, load_provider_module}
use retrom.Provider.Rules.{Ensures, continue-Ensures, require-Ensures, weaken-Ensures}
use retrom.Provider.Verified.{
  IsFetched, IsModuleError, IsRequest, HasFetched, HasRefused, module_url, fetch-Ensures,
}

-- The events of an import: its URL is revoked again behind it.
abbrev pub import_log : Text → Text → Log
import_log url module_object_url =
    requested url
    ∷ lock_released
    ∷ url_created module_object_url
    ∷ imported module_object_url
    ∷ url_revoked module_object_url
    ∷ []

-- The events of a load that fails: those of the request alone, or with those of an import.
abbrev pub IsLoadLog : Text → Log → Type 0
IsLoadLog url log = IsRequest url log ⊎ ((u : Text) × (log ≡ import_log url u))

module _ (environment : DispatcherEnvironment) (code : Foreign) (runtime : Value) where
  -- The module is what the import of the fetched bytes yields, and is the provider's that the
  -- reference names.
  abbrev pub IsLoaded : List (Text × Member) → Log → Type 0
  IsLoaded ms log =
      (bytes : Bytes) × IsFetched environment runtime bytes
      × (code.importer (environment.create_module_url bytes) ≡ some (exports ms))
      × (is_provider_module runtime ms ≡ true)
      × (log ≡ import_log (module_url runtime) (environment.create_module_url bytes))

  abbrev pub HasNotLoaded : Error → Log → Type 0
  HasNotLoaded e log = IsModuleError e × IsLoadLog (module_url runtime) log

  validate-Ensures :
      (bytes : Bytes) (value : Imported)
      → IsFetched environment runtime bytes
      → code.importer (environment.create_module_url bytes) ≡ some value
      → Ensures IsLoaded HasNotLoaded (
          validate_provider_module value runtime
            (import_log (module_url runtime) (environment.create_module_url bytes)))
  unfolding validate_provider_module
  validate-Ensures bytes no_record fetched e = (tt, inr (environment.create_module_url bytes, refl))
  validate-Ensures bytes (exports ms) fetched e =
      require-Ensures IsLoaded HasNotLoaded (is_provider_module runtime ms) module_error (pure ms)
        (import_log (module_url runtime) (environment.create_module_url bytes))
        (λ _. (tt, inr (environment.create_module_url bytes, refl)))
        λ passed. (bytes, fetched, e, passed, refl)

  import-Ensures :
      (bytes : Bytes) (log : Log)
      → HasFetched environment runtime bytes log
      → Ensures IsLoaded HasNotLoaded (import_bytes environment code runtime bytes log)
  unfolding import_bytes
  import-Ensures bytes log (fetched, at) =
      let u = environment.create_module_url bytes in
      elim (Option-cases (code.importer u)) [
        | inl rejected ↦ rw (at, rejected) (tt, inr (u, refl))
        | inr (value, e) ↦ rw (at, e) (validate-Ensures bytes value fetched e)
      ]

  -- A module is returned only if the request of its URL was answered with a script of 1 to 8388608
  -- bytes, of the declared length if one is declared, whose digest is that of the reference, and if
  -- the import of those bytes yields a module of the provider that the reference names. Any other
  -- outcome is one of the two errors of a module. If a module URL was created, it was imported once
  -- and revoked behind that, whatever the outcome.
  pub load-Ensures :
      Ensures IsLoaded HasNotLoaded (load_provider_module environment code runtime [])
  unfolding load_provider_module
  load-Ensures =
      continue-Ensures (HasFetched environment runtime) HasNotLoaded IsLoaded
        (import_bytes environment code runtime) (fetch_provider_module environment runtime [])
        (weaken-Ensures (HasFetched environment runtime) (HasRefused environment runtime)
          HasNotLoaded (fetch_provider_module environment runtime [])
          (fetch-Ensures environment runtime) (λ e log (error, request). (error, inl request)))
        import-Ensures
