-- ===== src/Provider/Effects.antt =====
-- What web/features/player/runtime/provider-dispatcher.ts does besides computing a result: the
-- exceptions that it throws, and the calls that reach the browser.
use retrom.Prelude.{List, [], ◌∷◌, ◌++◌}
use retrom.Text.{Text}

-- The codes of errors.ts that the dispatcher uses.
pub data PlayerRuntimeErrorCode : Type 0 where
  envelope_invalid module_invalid digest_invalid threads_unavailable : PlayerRuntimeErrorCode

-- `foreign` is any exception that is no PlayerRuntimeError.
pub data Error : Type 0 where
  player : PlayerRuntimeErrorCode → Error
  foreign : Error

pub data Event : Type 0 where
  requested : Text → Event
  lock_released : Event
  url_created : Text → Event
  imported : Text → Event
  url_revoked : Text → Event
  runtime_created cache_reclaimed : Event

abbrev pub Log : Type 0
Log = List Event

pub data Outcome {ℓ} (A : Type ℓ) : Type ℓ where
  returned : A → Outcome A
  thrown : Error → Outcome A

-- An asynchronous function, from the events so far to its outcome and the events behind it.
abbrev pub Run : Type 0 → Type 0
Run A = Log → Outcome A × Log

abbrev pub pure : {A : Type 0} → A → Run A
pure a log = (returned a, log)

abbrev pub throw : {A : Type 0} → Error → Run A
throw e log = (thrown e, log)

abbrev pub emit : Event → Run (Unit {0})
emit e log = (returned tt, log ++ e ∷ [])

abbrev pub continue : {A B : Type 0} → (A → Run B) → Outcome A × Log → Outcome B × Log
continue f (returned a, log) = f a log
continue f (thrown e, log) = (thrown e, log)

infixl 5 ◌>>=◌ ◌>>◌
abbrev pub ◌>>=◌ : {A B : Type 0} → Run A → (A → Run B) → Run B
◌>>=◌ m f log = continue f (m log)

abbrev pub ◌>>◌ : {B : Type 0} → Run (Unit {0}) → Run B → Run B
m >> k = m >>= λ _. k

abbrev pub handle : {A : Type 0} → (Error → Run A) → Outcome A × Log → Outcome A × Log
handle h (returned a, log) = (returned a, log)
handle h (thrown e, log) = h e log

-- `try … catch`.
abbrev pub catch : {A : Type 0} → Run A → (Error → Run A) → Run A
catch m h log = handle h (m log)

abbrev pub conclude : {A : Type 0} → Event → Outcome A × Log → Outcome A × Log
conclude e (outcome, log) = (outcome, log ++ e ∷ [])

-- `try … finally`, with a last step that does not throw.
abbrev pub finally : {A : Type 0} → Run A → Event → Run A
finally m e log = conclude e (m log)
