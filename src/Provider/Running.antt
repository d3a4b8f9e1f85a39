-- ===== src/Provider/Running.antt =====
-- `loadProviderRuntime` of provider-dispatcher.ts: what a returned runtime has passed.
use retrom.Prelude.{
  ◌≡◌, refl, ap, sym, subst, arith, Bool, true, false, not, List, [], ◌∷◌, ◌++◌, Option, some, all,
  Bool-cases, Option-cases, inl, inr,
}
use retrom.Text.{Text, lit, same}
use retrom.Value.{Value}
use retrom.Envelope.Browser.{Platform}
use retrom.Envelope.Checks.{prop, on_text}
use retrom.Envelope.{validate_launch_envelope_boundary}
use retrom.Provider.Effects.{
  Error, Log, returned, player, threads_unavailable, runtime_created, pure, ◌>>=◌, ◌>>◌,
}
use retrom.Provider.Fetching.{DispatcherEnvironment, require, called, module_error}
use retrom.Provider.Contract.{
  Member, PlayerRuntime, method_is_function, runtime_methods, valid_session_capabilities,
  validate_player_runtime, may_save, check_state, check_capabilities,
}
use retrom.Provider.{
  Foreign, runtime_of, load_provider_module, load_provider_runtime, accept_runtime, create_runtime,
  lacks_threads, run_envelope,
}
use retrom.Provider.Rules.{
  Ensures, continue-Ensures, require-Ensures, await-Ensures, called-Ensures, weaken-Ensures,
}
use retrom.Provider.Verified.{module_url}
use retrom.Provider.Loading.{IsLoaded, HasNotLoaded, IsLoadLog, import_log, load-Ensures}

module _ (r : PlayerRuntime) (runtime : Value) where
  -- What `validatePlayerRuntime` has seen of a runtime.
  pub record IsAccepted : Type 0 where
    pub state : Option Value
    pub capabilities : Option Value
    pub methods : all (method_is_function r) runtime_methods ≡ true
    pub acknowledges : may_save r runtime ≡ true
    pub got_state : r.get_state ≡ returned state
    pub created : on_text (same (lit "CREATED")) state ≡ true
    pub got_capabilities : r.get_capabilities ≡ returned capabilities
    pub agree : valid_session_capabilities capabilities (prop "capabilities" runtime) ≡ true

  abbrev Accepts : Log → Unit {0} → Log → Type 0
  Accepts at _ log = IsAccepted × (log ≡ at)

  abbrev Leaves : Log → Error → Log → Type 0
  Leaves at e log = log ≡ at

  capabilities-Ensures :
      (log : Log) (state capabilities : Option Value)
      → all (method_is_function r) runtime_methods ≡ true
      → may_save r runtime ≡ true
      → r.get_state ≡ returned state
      → on_text (same (lit "CREATED")) state ≡ true
      → r.get_capabilities ≡ returned capabilities
      → Ensures (Accepts log) (Leaves log) (check_capabilities runtime capabilities log)
  capabilities-Ensures log state capabilities methods acknowledges got_state created got =
      elim (Bool-cases (valid_session_capabilities capabilities (prop "capabilities" runtime))) [
        | inl agree ↦
            rw (agree, require)
              (
                record {
                  state = state;
                  capabilities = capabilities;
                  methods = methods;
                  acknowledges = acknowledges;
                  got_state = got_state;
                  created = created;
                  got_capabilities = got;
                  agree = agree;
                },
                refl,
              )
        | inr differ ↦ rw (differ, require) refl
      ]

  state-Ensures :
      (log : Log) (state : Option Value)
      → all (method_is_function r) runtime_methods ≡ true
      → may_save r runtime ≡ true
      → r.get_state ≡ returned state
      → Ensures (Accepts log) (Leaves log) (check_state r runtime state log)
  state-Ensures log state methods acknowledges got_state =
      require-Ensures (Accepts log) (Leaves log) (on_text (same (lit "CREATED")) state) module_error
        (called r.get_capabilities >>= check_capabilities runtime) log (λ _. refl)
        λ created.
          called-Ensures (Accepts log) (Leaves log) r.get_capabilities (check_capabilities runtime)
            log (λ _. refl)
            λ capabilities got.
              capabilities-Ensures log state capabilities methods acknowledges got_state created got

  validate-Ensures :
      (log : Log) → Ensures (Accepts log) (Leaves log) (validate_player_runtime r runtime log)
  unfolding validate_player_runtime
  validate-Ensures log =
      require-Ensures (Accepts log) (Leaves log) r.is_object module_error
        (require (all (method_is_function r) runtime_methods) module_error
          >> (require (may_save r runtime) module_error
              >> (called r.get_state >>= check_state r runtime)))
        log (λ _. refl)
        λ is_object.
          require-Ensures (Accepts log) (Leaves log) (all (method_is_function r) runtime_methods)
            module_error
            (require (may_save r runtime) module_error
              >> (called r.get_state >>= check_state r runtime))
            log (λ _. refl)
            λ methods.
              require-Ensures (Accepts log) (Leaves log) (may_save r runtime) module_error
                (called r.get_state >>= check_state r runtime) log (λ _. refl)
                λ acknowledges.
                  called-Ensures (Accepts log) (Leaves log) r.get_state (check_state r runtime) log
                    (λ _. refl)
                    λ state got_state. state-Ensures log state methods acknowledges got_state

not-eq-true : (b : Bool) → not b ≡ true → b ≡ false
not-eq-true b h = ground arith

module _ (environment : DispatcherEnvironment) (code : Foreign) (platform : Platform)
    (v : Value) where
  -- The runtime is made, by the module that was loaded, from the envelope that the value is.
  pub record IsStarted (r : PlayerRuntime) (log : Log) : Type 0 where
    pub envelope : Value
    pub provider : List (Text × Member)
    pub load_log : Log
    pub validated : validate_launch_envelope_boundary platform v ≡ some envelope
    pub threads : lacks_threads environment code platform envelope ≡ false
    pub loaded : IsLoaded environment code (runtime_of envelope) provider load_log
    pub made : code.create_runtime provider envelope ≡ some r
    pub accepted : IsAccepted r (runtime_of envelope)
    pub logged : log ≡ load_log ++ runtime_created ∷ []

  -- The events of a start that fails: none, those of a load, or those of a start.
  pub data IsStartLog (log : Log) : Type 0 where
    before_load : log ≡ [] → IsStartLog log
    at_load : (url : Text) → IsLoadLog url log → IsStartLog log
    behind_load : (url u : Text) → log ≡ import_log url u ++ runtime_created ∷ [] → IsStartLog log

  abbrev HasNotStarted : Error → Log → Type 0
  HasNotStarted e log = IsStartLog log

  create-Ensures :
      (envelope : Value) (provider : List (Text × Member)) (log : Log)
      → validate_launch_envelope_boundary platform v ≡ some envelope
      → lacks_threads environment code platform envelope ≡ false
      → IsLoaded environment code (runtime_of envelope) provider log
      → Ensures IsStarted HasNotStarted
          (create_runtime environment code platform envelope provider log)
  create-Ensures envelope provider log validated threads loaded =
      let (bytes, fetched, is_module, passed, at) = loaded in
      let failed : IsStartLog (log ++ runtime_created ∷ []) =
        behind_load (module_url (runtime_of envelope)) (environment.create_module_url bytes)
          (ap (λ l. l ++ runtime_created ∷ []) at) in
      await-Ensures IsStarted HasNotStarted (code.create_runtime provider envelope)
        (accept_runtime environment code platform envelope) (log ++ runtime_created ∷ []) failed
        λ r made.
          continue-Ensures (Accepts r (runtime_of envelope) (log ++ runtime_created ∷ []))
            HasNotStarted IsStarted (λ _. pure r)
            (validate_player_runtime r (runtime_of envelope) (log ++ runtime_created ∷ []))
            (weaken-Ensures (Accepts r (runtime_of envelope) (log ++ runtime_created ∷ []))
              (Leaves r (runtime_of envelope) (log ++ runtime_created ∷ [])) HasNotStarted
              (validate_player_runtime r (runtime_of envelope) (log ++ runtime_created ∷ []))
              (validate-Ensures r (runtime_of envelope) (log ++ runtime_created ∷ []))
              (λ e l same_log. subst IsStartLog (sym same_log) failed))
            λ _ l (accepted, same_log). record {
              envelope = envelope;
              provider = provider;
              load_log = log;
              validated = validated;
              threads = threads;
              loaded = loaded;
              made = made;
              accepted = accepted;
              logged = same_log;
            }

  run-Ensures :
      (envelope : Value)
      → validate_launch_envelope_boundary platform v ≡ some envelope
      → Ensures IsStarted HasNotStarted (run_envelope environment code platform envelope [])
  run-Ensures envelope validated =
      require-Ensures IsStarted HasNotStarted
        (not (lacks_threads environment code platform envelope)) (player threads_unavailable)
        (load_provider_module environment code (runtime_of envelope)
          >>= create_runtime environment code platform envelope)
        [] (λ _. before_load refl)
        λ threads.
          continue-Ensures (IsLoaded environment code (runtime_of envelope)) HasNotStarted IsStarted
            (create_runtime environment code platform envelope)
            (load_provider_module environment code (runtime_of envelope) [])
            (weaken-Ensures (IsLoaded environment code (runtime_of envelope))
              (HasNotLoaded environment code (runtime_of envelope)) HasNotStarted
              (load_provider_module environment code (runtime_of envelope) [])
              (load-Ensures environment code (runtime_of envelope))
              (λ e log (error, at). at_load (module_url (runtime_of envelope)) at))
            λ provider log loaded.
              create-Ensures envelope provider log validated (not-eq-true _ threads) loaded

  -- A runtime is returned only if the value is an accepted launch envelope, the page is isolated
  -- where the envelope requires threads, a module of its provider was loaded, and the runtime that
  -- this module makes has the methods, the state and the capabilities that the envelope calls for.
  -- Whatever the outcome, a module URL that was created is revoked, and before a runtime is made.
  pub load_provider_runtime-Ensures :
      Ensures IsStarted HasNotStarted (load_provider_runtime environment code platform v [])
  unfolding load_provider_runtime
  load_provider_runtime-Ensures =
      elim (Option-cases (validate_launch_envelope_boundary platform v)) [
        | inl none_accepted ↦ rw none_accepted (before_load refl)
        | inr (envelope, e) ↦ rw e (run-Ensures envelope e)
      ]
