-- ===== src/Provider/Verified.antt =====
-- What a fetched module of provider-dispatcher.ts has passed.
use retrom.Prelude.{
  ℕ, ◌≤◌, ◌≡◌, ◌⊎◌, refl, sym, subst, inl, inr, Bool, true, false, not, ◌&&◌, [], ◌∷◌, Option, none,
  some, ltb, length, Bool-cases, arith,
}
use retrom.Text.{Text, same}
use retrom.Value.{Value}
use retrom.Envelope.Checks.{prop, on_text, string_of}
use retrom.Provider.Effects.{
  Error, Log, player, foreign, module_invalid, digest_invalid, envelope_invalid,
  threads_unavailable, requested, lock_released, pure, ◌>>=◌, ◌>>◌,
}
use retrom.Provider.Body.{Bytes, Stream, read_bounded_body}
use retrom.Provider.Fetching.{
  DispatcherEnvironment, Response, maximum_module_bytes, is_script, valid_length, has_length, await,
  require, module_error, as_module_error, check_sum, check_bytes, read_body, check_response,
  fetch_provider_module,
}
use retrom.Provider.Assembly.{contents, ends, read_bounded_body_lem}
use retrom.Provider.Rules.{
  Ensures, continue-Ensures, handle-Ensures, require-Ensures, await-Ensures,
}

abbrev pub module_url : Value → Text
module_url runtime = string_of (prop "moduleUrl" runtime)

-- The bytes are the whole body of the answer to a request of the module's URL, of an allowed and
-- the declared length, and their digest is that of the reference.
pub record IsFetched (environment : DispatcherEnvironment) (runtime : Value) (bytes : Bytes)
    : Type 0 where
  pub response : Response
  pub stream : Stream
  pub sum : Text
  pub answered : environment.fetcher (module_url runtime) ≡ some response
  pub accepted : response.ok ≡ true
  pub script : is_script response.content_type ≡ true
  pub declared : has_length response.content_length bytes ≡ true
  pub whole : (response.body ≡ some stream) × (contents stream ≡ bytes) × (ends stream ≡ true)
  pub bounded : (1 ≤ length bytes) × (length bytes ≤ maximum_module_bytes)
  pub digested : environment.sha256 bytes ≡ some sum
  pub matching : on_text (same sum) (prop "moduleSha256" runtime) ≡ true

-- The two errors of a request that fails.
abbrev pub IsModuleError : Error → Type 0
IsModuleError foreign = ⊥
IsModuleError (player module_invalid) = Unit
IsModuleError (player digest_invalid) = Unit
IsModuleError (player envelope_invalid) = ⊥
IsModuleError (player threads_unavailable) = ⊥

-- These, or an exception that is caught.
abbrev IsCaught : Error → Type 0
IsCaught foreign = Unit
IsCaught (player c) = IsModuleError (player c)

-- The events of a request: the body was not read, or was read and let go.
abbrev pub IsRequest : Text → Log → Type 0
IsRequest url log = (log ≡ requested url ∷ []) ⊎ (log ≡ requested url ∷ lock_released ∷ [])

abbrev IsRead : Option Stream → Bytes → Type 0
IsRead body bytes =
    (stream : Stream) × (body ≡ some stream)
    × (contents stream ≡ bytes)
    × (ends stream ≡ true)
    × (length bytes ≤ maximum_module_bytes)

abbrev HasRead : Text → Option Stream → Bytes → Log → Type 0
HasRead url body bytes log = IsRead body bytes × (log ≡ requested url ∷ lock_released ∷ [])

abbrev HasFailed : Text → Error → Log → Type 0
HasFailed url e log = IsCaught e × IsRequest url log

not_ltb→le : (a b : ℕ) → ltb a b ≡ false → b ≤ a
not_ltb→le a b h = ground arith

and_left : (a b : Bool) → (a && b) ≡ true → a ≡ true
and_left a b h = ground arith

and_right : (a b : Bool) → (a && b) ≡ true → b ≡ true
and_right a b h = ground arith

some_bytes :
    (bytes : Bytes) (b : Bool) → (not (ltb (length bytes) 1) && b) ≡ true → 1 ≤ length bytes
some_bytes bytes b h = ground arith

read-Ensures :
    (url : Text) (body : Option Stream)
    → Ensures
        (HasRead url body)
        (HasFailed url)
        (read_bounded_body body maximum_module_bytes (requested url ∷ []))
unfolding read_bounded_body
read-Ensures url none = (tt, inl refl)
read-Ensures url (some stream) =
    subst (Ensures (HasRead url (some stream)) (HasFailed url))
      (sym (read_bounded_body_lem stream maximum_module_bytes (requested url ∷ [])))
      (elim (Bool-cases (ltb maximum_module_bytes (length (contents stream)))) [
        | inl over ↦ rw over (tt, inr refl)
        | inr fits ↦ elim (Bool-cases (ends stream)) [
          | inl well ↦ rw (fits, well) ((stream, refl, refl, well, not_ltb→le _ _ fits), refl)
          | inr ill ↦ rw (fits, ill) (tt, inr refl)
        ]
      ])

module _ (environment : DispatcherEnvironment) (runtime : Value) where
  abbrev url : Text
  url = module_url runtime

  abbrev pub HasFetched : Bytes → Log → Type 0
  HasFetched bytes log =
      IsFetched environment runtime bytes × (log ≡ requested url ∷ lock_released ∷ [])

  check_bytes-Ensures :
      (response : Response) (bytes : Bytes) (log : Log)
      → environment.fetcher url ≡ some response
      → (response.ok && is_script response.content_type) ≡ true
      → HasRead url response.body bytes log
      → Ensures HasFetched (HasFailed url) (check_bytes environment runtime response bytes log)
  check_bytes-Ensures response bytes log answered accepted ((stream, body, all, well, small), at) =
      require-Ensures HasFetched (HasFailed url)
        (not (ltb (length bytes) 1) && has_length response.content_length bytes) module_error
        (await (environment.sha256 bytes) >>= check_sum environment runtime bytes) log
        (λ e. (tt, inr at))
        λ sized.
          await-Ensures HasFetched (HasFailed url) (environment.sha256 bytes)
            (check_sum environment runtime bytes) log (tt, inr at)
            λ sum digested.
              require-Ensures HasFetched (HasFailed url)
                (on_text (same sum) (prop "moduleSha256" runtime)) (player digest_invalid)
                (pure bytes) log (λ e. (tt, inr at))
                λ matching. (
                  record {
                    response = response;
                    stream = stream;
                    sum = sum;
                    answered = answered;
                    accepted = and_left _ _ accepted;
                    script = and_right _ _ accepted;
                    declared = and_right _ _ sized;
                    whole = (body, all, well);
                    bounded = (some_bytes bytes _ sized, small);
                    digested = digested;
                    matching = matching;
                  },
                  at,
                )

  check-Ensures :
      (response : Response)
      → environment.fetcher url ≡ some response
      → Ensures HasFetched
          (HasFailed url)
          (check_response environment runtime response (requested url ∷ []))
  unfolding check_response
  check-Ensures response answered =
      require-Ensures HasFetched (HasFailed url) (response.ok && is_script response.content_type)
        module_error
        (require (valid_length response.content_length) module_error
          >> read_body environment runtime response)
        (requested url ∷ []) (λ e. (tt, inl refl))
        λ accepted.
          require-Ensures HasFetched (HasFailed url) (valid_length response.content_length)
            module_error (read_body environment runtime response) (requested url ∷ [])
            (λ e. (tt, inl refl))
            λ valid.
              continue-Ensures (HasRead url response.body) (HasFailed url) HasFetched
                (check_bytes environment runtime response)
                (read_bounded_body response.body maximum_module_bytes (requested url ∷ []))
                (read-Ensures url response.body)
                λ bytes log read. check_bytes-Ensures response bytes log answered accepted read

  abbrev pub HasRefused : Error → Log → Type 0
  HasRefused e log = IsModuleError e × IsRequest url log

  -- The end of `fetchProviderModule` leaves the two errors alone.
  as_module :
      (e : Error) (log : Log)
      → HasFailed url e log
      → Ensures HasFetched HasRefused (as_module_error {A = Bytes} e log)
  as_module (player c) log failed = failed
  as_module foreign log (caught, request) = (tt, request)

  -- `fetchProviderModule`.
  pub fetch-Ensures : Ensures HasFetched HasRefused (fetch_provider_module environment runtime [])
  unfolding fetch_provider_module
  fetch-Ensures =
      handle-Ensures HasFetched (HasFailed url) HasRefused as_module_error
        ((await (environment.fetcher url) >>= check_response environment runtime)
          (requested url ∷ []))
        (await-Ensures HasFetched (HasFailed url) (environment.fetcher url)
          (check_response environment runtime) (requested url ∷ []) (tt, inl refl) check-Ensures)
        as_module
