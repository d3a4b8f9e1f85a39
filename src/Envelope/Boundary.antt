-- ===== src/Envelope/Boundary.antt =====
-- The whole boundary of envelope.ts: what holds of each envelope that the player is given.
use retrom.Prelude.{◌≡◌, refl, ◌⊎◌, Bool, true, ◌&&◌, none, some, arith, if◌then◌else◌}
use retrom.Text.{Text}
use retrom.Value.{Value, null, array, items, Items}
use retrom.CanonicalJson.{parse_canonical_json}
use retrom.CanonicalJson.Scan.{Result, ok, failed, out_of_fuel}
use retrom.CanonicalJson.Canonical.{IsCanonical}
use retrom.CanonicalJson.Sound.{parse_canonical_json-IsCanonical}
use retrom.Regex.{test}
use retrom.Envelope.Patterns.{semver}
use retrom.Envelope.Checks.{
  prop, on_text, on_array, on_record, is_record, exact_keys, valid_identity, valid_core_identity,
  valid_digest,
}
use retrom.Envelope.Json.{valid_target_options}
use retrom.Envelope.Browser.{Platform}
use retrom.Envelope.Inversion.{on_array_sound, on_record_sound}
use retrom.Envelope.Runtime.{
  is_number, valid_session, runtime_keys, runtime_checks, launch_runtime, valid_runtime_identity,
  valid_runtime_digests, valid_capabilities, valid_checkpoint, checkpoint_enabled, valid_restore,
}
use retrom.Envelope.Resources.{valid_resources}
use retrom.Envelope.Numbering.{IsNumbered, valid_resources-IsNumbered}
use retrom.Envelope.Launch.{IsServed, urls-IsServed, IsRestorable, valid_restore-IsRestorable}
use retrom.Envelope.{
  envelope_keys, valid_provider_module_urls, valid_bridges_under, valid_envelope_body,
  validate_launch_envelope_boundary, parse_launch_envelope_json,
}

-- The guarantees on an accepted envelope.
pub record IsLaunch (v : Value) : Type 0 where
  pub runtime : Value
  pub resources : Items
  pub runtime_prop : prop "runtime" v ≡ some runtime
  pub resources_prop : prop "resources" v ≡ some (array resources)
  pub served : IsServed runtime
  pub numbered : IsNumbered (items resources)
  pub restorable :
      (prop "restore" v ≡ some null)
      ⊎ ((r c : Value) × (prop "restore" v ≡ some r)
          × (prop "checkpoint" runtime ≡ some c)
          × IsRestorable r c)

body_parts :
    (a b c d e : Bool)
    → (a && b && c && d && e) ≡ true
    → (a ≡ true) × (b ≡ true) × (c ≡ true) × (e ≡ true)
body_parts a b c d e h = ground arith

four_parts : (a b c d : Bool) → (a && b && c && d) ≡ true → (a ≡ true) × (b ≡ true)
four_parts a b c d h = ground arith

five_parts : (a b c d e : Bool) → (a && b && c && d && e) ≡ true → (b ≡ true) × (c ≡ true)
five_parts a b c d e h = ground arith

boundary_parts :
    (a b c d e f : Bool) (v w : Value)
    → (if a && b && c && d then (if e && f then some v else none) else none) ≡ some w
    → (w ≡ v) × (e ≡ true) × (f ≡ true)
boundary_parts a b c d e f v w h = ground arith

provider_valid :
    (r : Value) → valid_runtime_identity r ≡ true → valid_identity (prop "providerId" r) ≡ true
unfolding valid_runtime_identity
provider_valid r h =
    (five_parts (is_number 1 (prop "providerApiVersion" r)) (valid_core_identity (prop "coreId" r))
      (valid_identity (prop "providerId" r)) (valid_identity (prop "targetId" r))
      (on_text (test semver) (prop "providerVersion" r)) h).1

digests_valid :
    (r : Value)
    → valid_runtime_digests r ≡ true
    → (valid_digest (prop "bundleSha256" r) ≡ true) × (valid_digest (prop "moduleSha256" r) ≡ true)
unfolding valid_runtime_digests
digests_valid r h =
    four_parts (valid_digest (prop "bundleSha256" r)) (valid_digest (prop "moduleSha256" r))
      (valid_digest (prop "coreFingerprint" r)) (valid_digest (prop "romHash" r)) h

runtime-IsServed :
    (r : Value) → runtime_checks r ≡ true → valid_provider_module_urls r ≡ true → IsServed r
unfolding runtime_checks
runtime-IsServed r h urls =
    let (identity, digests) =
      five_parts (exact_keys r runtime_keys) (valid_runtime_identity r) (valid_runtime_digests r)
        (valid_capabilities (prop "capabilities" r))
        (valid_checkpoint (prop "checkpoint" r) (checkpoint_enabled (prop "capabilities" r))) h in
    let (bundle, build) = digests_valid r digests in
    urls-IsServed r (provider_valid r identity) bundle build urls

module _ (platform : Platform) where
  body-IsLaunch :
      (v r : Value)
      → prop "runtime" v ≡ some r
      → runtime_checks r ≡ true
      → valid_envelope_body platform v r ≡ true
      → IsLaunch v
  unfolding valid_envelope_body
  body-IsLaunch v r e checks h =
      let (urls, resources, bridges, restore) =
        body_parts (valid_provider_module_urls r) (valid_resources platform (prop "resources" v))
          (on_array (valid_bridges_under platform r) (prop "resources" v))
          (valid_target_options platform.json_bytes (prop "targetOptions" v))
          (valid_restore (prop "restore" v) (prop "checkpoint" r)) h in
      let (vs, k, _) =
        on_array_sound (valid_bridges_under platform r) (prop "resources" v) bridges in
      record {
        runtime = r;
        resources = vs;
        runtime_prop = e;
        resources_prop = k;
        served = runtime-IsServed r checks urls;
        numbered = valid_resources-IsNumbered platform vs (rw k at resources);
        restorable = valid_restore-IsRestorable (prop "restore" v) (prop "checkpoint" r) restore;
      }

  -- A launch envelope that is accepted is returned as it is; its module is served from the
  -- provider's own directory, its resources are numbered per role, and its restore is null or fits
  -- the checkpoint of its runtime.
  pub boundary-IsLaunch :
      (v w : Value) → validate_launch_envelope_boundary platform v ≡ some w → (w ≡ v) × IsLaunch v
  unfolding validate_launch_envelope_boundary launch_runtime
  boundary-IsLaunch v w h =
      let (same, runtime, body) =
        boundary_parts (is_record v) (exact_keys v envelope_keys)
          (is_number 1 (prop "schemaVersion" v)) (valid_session (prop "session" v))
          (launch_runtime (prop "runtime" v))
          (on_record (valid_envelope_body platform v) (prop "runtime" v)) v w h in
      let (r, e, checks) = on_record_sound runtime_checks (prop "runtime" v) runtime in
      let (q, f, fits) = on_record_sound (valid_envelope_body platform v) (prop "runtime" v) body in
      let one : q ≡ r = cc in (same, body-IsLaunch v r e checks (rw one at fits))

  parsed :
      (result : Result Value) {w : Value}
      → (elim result [
        | ok v ↦ validate_launch_envelope_boundary platform v
        | failed ↦ none
        | out_of_fuel ↦ none
      ])
        ≡ some w
      → (v : Value) × (result ≡ ok v) × (validate_launch_envelope_boundary platform v ≡ some w)
  parsed (ok v) h = (v, refl, h)
  parsed failed h = cc
  parsed out_of_fuel h = cc

  -- What the JSON text of an envelope yields is the value of the text, has the guarantees of an
  -- accepted envelope, and holds no unpaired surrogate, no unsafe integer and no repeated own key.
  pub parse_launch_envelope_json-IsLaunch :
      (source : Text) (v : Value)
      → parse_launch_envelope_json platform source ≡ some v
      → (parse_canonical_json source ≡ ok v) × IsLaunch v × IsCanonical v
  unfolding parse_launch_envelope_json
  parse_launch_envelope_json-IsLaunch source v h =
      let (u, e, accepted) = parsed (parse_canonical_json source) h in
      let (same, launch) = boundary-IsLaunch u v accepted in
      let read : parse_canonical_json source ≡ ok v = cc in
      (read, rw same launch, parse_canonical_json-IsCanonical source v read)
