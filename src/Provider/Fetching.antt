-- ===== src/Provider/Fetching.antt =====
-- web/features/player/runtime/provider-dispatcher.ts: the request of a provider's module.
use retrom.Prelude.{
  ℕ, ◌*◌, Bool, true, false, not, ◌&&◌, Option, none, some, ltb, ◌==◌, length, within,
}
use retrom.Text.{Text, lit, same}
use retrom.Value.{Value}
use retrom.Regex.{Regex, alt, seq, star, unit, chr, test}
use retrom.CanonicalJson.Numbers.{decimal_from}
use retrom.Envelope.Checks.{prop, on_text, string_of}
use retrom.Provider.Effects.{
  Run, Outcome, Error, pure, throw, emit, player, foreign, module_invalid, digest_invalid,
  requested, catch, ◌>>=◌, ◌>>◌,
}
use retrom.Provider.Body.{Bytes, Stream, read_bounded_body}

pub record Response : Type 0 where
  pub ok : Bool
  pub content_type : Option Text
  pub content_length : Option Text
  pub body : Option Stream

-- `DispatcherEnvironment`. `none` is a promise that is rejected.
pub record DispatcherEnvironment : Type 0 where
  pub create_module_url : Bytes → Text
  pub cross_origin_isolated : Bool
  pub fetcher : Text → Option Response
  pub sha256 : Bytes → Option Text

abbrev pub maximum_module_bytes : ℕ
maximum_module_bytes = 8 * 1024 * 1024

-- `/^(0|[1-9][0-9]*)$/`.
abbrev pub length_pattern : Regex
length_pattern =
    alt (chr b'0') (seq (unit (λ c. within b'1' b'9' c)) (star (unit (λ c. within b'0' b'9' c))))

-- The test of a declared length. The rounding of `Number` keeps it on its side of each bound.
unfoldable pub valid_length : Option Text → Bool
unfolding decimal_from
valid_length none = true
valid_length (some declared) =
    test length_pattern declared
    && not (ltb (decimal_from 0 declared) 1)
    && not (ltb maximum_module_bytes (decimal_from 0 declared))

-- Whether the body has the declared length.
unfoldable pub has_length : Option Text → Bytes → Bool
unfolding decimal_from
has_length none bytes = true
has_length (some declared) bytes = length bytes == decimal_from 0 declared

abbrev pub is_script : Option Text → Bool
is_script none = false
is_script (some type) = same type (lit "text/javascript; charset=utf-8")

-- A promise.
abbrev pub await : {A : Type 0} → Option A → Run A
await none = throw foreign
await (some a) = pure a

-- A call of a function that may throw.
abbrev pub called : {A : Type 0} → Outcome A → Run A
called outcome log = (outcome, log)

-- The guard `if (!test) throw error`.
abbrev pub require : Bool → Error → Run (Unit {0})
require true e = pure tt
require false e = throw e

abbrev pub module_error : Error
module_error = player module_invalid

-- What an exception becomes at the end of `fetchProviderModule`.
abbrev pub as_module_error : {A : Type 0} → Error → Run A
as_module_error (player code) = throw (player code)
as_module_error foreign = throw module_error

module _ (environment : DispatcherEnvironment) where
  -- The end of the `try`: the digest, the tests of the bytes, and those of the answer.
  abbrev pub check_sum : Value → Bytes → Text → Run Bytes
  check_sum runtime bytes sum =
      require (on_text (same sum) (prop "moduleSha256" runtime)) (player digest_invalid)
      >> pure bytes

  abbrev pub check_bytes : Value → Response → Bytes → Run Bytes
  check_bytes runtime response bytes =
      require (not (ltb (length bytes) 1) && has_length response.content_length bytes) module_error
      >> (await (environment.sha256 bytes) >>= check_sum runtime bytes)

  abbrev pub read_body : Value → Response → Run Bytes
  read_body runtime response =
      read_bounded_body response.body maximum_module_bytes >>= check_bytes runtime response

  unfoldable pub check_response : Value → Response → Run Bytes
  unfolding valid_length has_length read_bounded_body
  check_response runtime response =
      require (response.ok && is_script response.content_type) module_error
      >> (require (valid_length response.content_length) module_error >> read_body runtime response)

  -- `fetchProviderModule`.
  unfoldable pub fetch_provider_module : Value → Run Bytes
  unfolding check_response
  fetch_provider_module runtime =
      let url = string_of (prop "moduleUrl" runtime) in
      catch (emit (requested url) >> (await (environment.fetcher url) >>= check_response runtime))
        as_module_error
