-- ===== src/Envelope.antt =====
-- web/features/player/runtime/envelope.ts: the validation of a launch envelope, from JSON text or
-- from a value.
pub mod Patterns
pub mod Texts
pub mod Checks
pub mod Json
pub mod Browser
pub mod Runtime
pub mod Resources
pub mod Sorting
pub mod WellFormed
pub mod Paths
pub mod Depth
pub mod Ascending
pub mod Inversion
pub mod Numbering
pub mod Launch
pub mod Boundary
pub mod Samples
mod Tests
use retrom.Prelude.{
  Bool, true, false, ◌&&◌, ◌||◌, List, [], ◌∷◌, ◌++◌, String, Option, none, some, if◌then◌else◌,
}
use retrom.Text.{Text, lit, same}
use retrom.Value.{Value}
use retrom.CanonicalJson.{parse_canonical_json}
use retrom.CanonicalJson.Scan.{ok, failed, out_of_fuel}
use retrom.Regex.{test}
use retrom.Envelope.Patterns.{semver}
use retrom.Envelope.Checks.{
  is_record, prop, exact_keys, on_text, on_array, on_record, valid_identity, valid_digest,
  string_of,
}
use retrom.Envelope.Json.{valid_target_options}
use retrom.Envelope.Browser.{Platform}
use retrom.Envelope.Runtime.{is_number, valid_session, launch_runtime, valid_restore}
use retrom.Envelope.Resources.{valid_resources, valid_resource_bridges}

-- The directory of a provider's bundle.
unfoldable pub provider_base : Value → Text
provider_base r =
    lit "/runtime/providers/"
    ++ string_of (prop "providerId" r)
    ++ lit "/"
    ++ string_of (prop "bundleSha256" r)
    ++ lit "/"

-- The checks of `validProviderModuleURLs` on the base of the runtime.
unfoldable pub valid_base_url : Value → Text → Bool
unfolding provider_base
valid_base_url r u =
    let base = provider_base r in
    let dev = base ++ lit "dev/" ++ string_of (prop "moduleSha256" r) ++ lit "/" in
    (same base u || same dev u) && on_text (same (u ++ lit "client.mjs")) (prop "moduleUrl" r)

-- `validProviderModuleURLs`.
unfoldable pub valid_provider_module_urls : Value → Bool
unfolding valid_base_url
valid_provider_module_urls r = on_text (valid_base_url r) (prop "runtimeBaseUrl" r)

abbrev pub reference_keys : List String
reference_keys =
    "bundleSha256" ∷ "moduleSha256" ∷ "moduleUrl" ∷ "providerApiVersion" ∷ "providerId"
    ∷ "providerVersion" ∷ "runtimeBaseUrl" ∷ []

-- `validateProviderModuleReference`; `none` is the exception of `invalid`.
unfoldable pub validate_provider_module_reference : Value → Option Value
unfolding exact_keys valid_provider_module_urls
validate_provider_module_reference v =
    if is_record v
      && exact_keys v reference_keys
      && is_number 1 (prop "providerApiVersion" v)
      && valid_identity (prop "providerId" v)
      && on_text (test semver) (prop "providerVersion" v)
      && valid_digest (prop "bundleSha256" v)
      && valid_digest (prop "moduleSha256" v)
      && on_text (λ _. true) (prop "moduleUrl" v)
      && on_text (λ _. true) (prop "runtimeBaseUrl" v)
    then (if valid_provider_module_urls v then some v else none)
    else none

abbrev pub envelope_keys : List String
envelope_keys =
    "resources" ∷ "restore" ∷ "runtime" ∷ "schemaVersion" ∷ "session" ∷ "targetOptions" ∷ []

module _ (platform : Platform) where
  -- The call of `validResourceBridges`.
  abbrev pub valid_bridges_under : Value → List Value → Bool
  valid_bridges_under r vs = on_text (valid_resource_bridges platform vs) (prop "runtimeBaseUrl" r)

  -- `validEnvelopeBody`.
  unfoldable pub valid_envelope_body : Value → Value → Bool
  unfolding valid_provider_module_urls valid_resources valid_resource_bridges valid_target_options
      valid_restore
  valid_envelope_body v r =
      valid_provider_module_urls r
      && valid_resources platform (prop "resources" v)
      && on_array (valid_bridges_under r) (prop "resources" v)
      && valid_target_options platform.json_bytes (prop "targetOptions" v)
      && valid_restore (prop "restore" v) (prop "checkpoint" r)

  -- `validateLaunchEnvelopeBoundary`; `none` is an exception.
  unfoldable pub validate_launch_envelope_boundary : Value → Option Value
  unfolding exact_keys valid_session launch_runtime valid_envelope_body
  validate_launch_envelope_boundary v =
      if is_record v
        && exact_keys v envelope_keys
        && is_number 1 (prop "schemaVersion" v)
        && valid_session (prop "session" v)
      then (if launch_runtime (prop "runtime" v)
            && on_record (valid_envelope_body v) (prop "runtime" v)
          then some v
          else none)
      else none

  -- `parseLaunchEnvelopeJSON`: each failure is the one exception.
  unfoldable pub parse_launch_envelope_json : Text → Option Value
  unfolding parse_canonical_json validate_launch_envelope_boundary
  parse_launch_envelope_json source = elim (parse_canonical_json source) [
    | ok v ↦ validate_launch_envelope_boundary v
    | failed ↦ none
    | out_of_fuel ↦ none
  ]
