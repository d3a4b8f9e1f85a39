-- ===== src/Envelope/Runtime.antt =====
-- web/features/player/runtime/envelope.ts: the session, the runtime with its capabilities and its
-- checkpoint, and the save to restore.
use retrom.Prelude.{
  ℕ, Bool, true, false, not, ◌&&◌, ◌||◌, List, [], ◌∷◌, Option, none, some, leb, ◌==◌,
  if◌then◌else◌, length, all, pos, negsuc, magnitude, String,
}
use retrom.Text.{Text, lit, same}
use retrom.Value.{Value, null, bool, num, str, array, object, has_own}
use retrom.Regex.{test}
use retrom.Envelope.Patterns.{semver}
use retrom.Envelope.Texts.{one_of, relative_url}
use retrom.Envelope.Checks.{
  prop, exact_keys, on_text, on_number, on_array, on_record, valid_identity, valid_core_identity,
  valid_token, valid_digest, uuid, positive_integer, bounded, sorted_unique, string_of, own_fields,
}

-- `=== 1` and `=== "…"`.
abbrev pub is_number : ℕ → Option Value → Bool
is_number k v = on_number (λ n. elim n [ pos m ↦ m == k | negsuc m ↦ false ]) v

abbrev pub is_text : String → Option Value → Bool
is_text k v = on_text (same (lit k)) v

-- `validSession`.
unfoldable pub valid_session : Option Value → Bool
unfolding exact_keys relative_url
valid_session v =
    on_record
      (λ s.
        exact_keys s (
          "coreName" ∷ "id" ∷ "mode" ∷ "platformName" ∷ "purpose" ∷ "returnTo" ∷ "title"
          ∷ "warnings" ∷ [])
        && uuid (prop "id" s)
        && one_of ("PRODUCT" ∷ "REVIEW_PREVIEW" ∷ []) (string_of (prop "purpose" s))
        && one_of ("SINGLE" ∷ []) (string_of (prop "mode" s))
        && bounded 1 500 (prop "title" s)
        && bounded 1 200 (prop "platformName" s)
        && bounded 1 200 (prop "coreName" s)
        && on_text relative_url (prop "returnTo" s)
        && on_array (λ ws. leb (length ws) 16 && all (λ w. bounded 1 200 (some w)) ws)
            (prop "warnings" s))
      v

abbrev pub flags : List String
flags =
    "checkpoint" ∷ "frameCounter" ∷ "inputFilter" ∷ "nativeSettings" ∷ "pause" ∷ "requiresThreads"
    ∷ "screenshot" ∷ "standardGamepad" ∷ "volume" ∷ []

abbrev pub is_bool : Option Value → Bool
is_bool (some (bool b)) = true
is_bool (some (str s)) = false
is_bool (some null) = false
is_bool (some (num n)) = false
is_bool (some (array vs)) = false
is_bool (some (object proto fs)) = false
is_bool none = false

-- The keys of the capabilities, with `contentLoading` where it is an own property.
abbrev pub capability_keys : Bool → List String
capability_keys true =
    "checkpoint" ∷ "contentLoading" ∷ "frameCounter" ∷ "frameMode" ∷ "inputFilter"
    ∷ "nativeSettings" ∷ "pause" ∷ "requiresThreads" ∷ "screenshot" ∷ "standardGamepad"
    ∷ "videoModes" ∷ "volume" ∷ []
capability_keys false =
    "checkpoint" ∷ "frameCounter" ∷ "frameMode" ∷ "inputFilter" ∷ "nativeSettings" ∷ "pause"
    ∷ "requiresThreads" ∷ "screenshot" ∷ "standardGamepad" ∷ "videoModes" ∷ "volume" ∷ []

-- `validCapabilities`.
unfoldable pub valid_capabilities : Option Value → Bool
unfolding exact_keys sorted_unique has_own
valid_capabilities v =
    on_record
      (λ c.
        let loading = has_own (lit "contentLoading") (own_fields c) in
        exact_keys c (capability_keys loading)
        && (not loading
            || is_text "ON_DEMAND_AND_PRELOAD" (prop "contentLoading" c)
            || is_text "PRELOAD_ONLY" (prop "contentLoading" c))
        && all (λ k. is_bool (prop k c)) flags
        && one_of
            ("NONE" ∷ "SAME_ORIGIN_BLANK" ∷ "SAME_ORIGIN_RESOURCE" ∷ "ISOLATED_ORIGIN_RESOURCE"
              ∷ [])
            (string_of (prop "frameMode" c))
        && on_array
            (λ ms.
              sorted_unique ms
              && all
                  (λ m.
                    on_text
                      (one_of (
                        "original" ∷ "pixel" ∷ "smooth" ∷ "sharp-bilinear" ∷ "adaptive-sharpen"
                        ∷ []))
                      (some m))
                  ms)
            (prop "videoModes" c))
      v

-- `formats.includes(format)` for a string.
abbrev pub includes_text : Text → List Value → Bool
includes_text s [] = false
includes_text s (v ∷ vs) = on_text (λ t. same t s) (some v) || includes_text s vs

-- `readFormats.includes(format)` on a property; only a string is found among strings.
abbrev pub format_in : Option Value → Option Value → Bool
format_in f fs = on_text (λ s. on_array (includes_text s) fs) f

abbrev pub is_null : Option Value → Bool
is_null (some null) = true
is_null (some (bool b)) = false
is_null (some (str s)) = false
is_null (some (num n)) = false
is_null (some (array vs)) = false
is_null (some (object proto fs)) = false
is_null none = false

-- `value === true` for a property that the checks on capabilities found to be a Boolean.
abbrev pub is_true : Option Value → Bool
is_true (some (bool b)) = b
is_true (some (str s)) = false
is_true (some null) = false
is_true (some (num n)) = false
is_true (some (array vs)) = false
is_true (some (object proto fs)) = false
is_true none = false

-- `validCheckpoint`.
unfoldable pub valid_checkpoint : Option Value → Bool → Bool
unfolding exact_keys sorted_unique
valid_checkpoint v false = is_null v
valid_checkpoint v true =
    on_record
      (λ c.
        exact_keys c ("maxBytes" ∷ "readFormats" ∷ "semantics" ∷ "writeFormat" ∷ [])
        && (is_text "INSTANT" (prop "semantics" c) || is_text "GAME_SAVE" (prop "semantics" c))
        && positive_integer (prop "maxBytes" c)
        && valid_token (prop "writeFormat" c)
        && on_array (λ fs. sorted_unique fs && all (λ f. valid_token (some f)) fs)
            (prop "readFormats" c)
        && format_in (prop "writeFormat" c) (prop "readFormats" c))
      v

-- `validRuntimeIdentity`.
unfoldable pub valid_runtime_identity : Value → Bool
valid_runtime_identity r =
    is_number 1 (prop "providerApiVersion" r)
    && valid_core_identity (prop "coreId" r)
    && valid_identity (prop "providerId" r)
    && valid_identity (prop "targetId" r)
    && on_text (test semver) (prop "providerVersion" r)

-- `validRuntimeDigests`.
unfoldable pub valid_runtime_digests : Value → Bool
valid_runtime_digests r =
    valid_digest (prop "bundleSha256" r)
    && valid_digest (prop "moduleSha256" r)
    && valid_digest (prop "coreFingerprint" r)
    && valid_digest (prop "romHash" r)

-- The part of the capabilities that decides on a checkpoint.
abbrev pub checkpoint_enabled : Option Value → Bool
checkpoint_enabled v = on_record (λ c. is_true (prop "checkpoint" c)) v

abbrev pub runtime_keys : List String
runtime_keys =
    "bundleSha256" ∷ "capabilities" ∷ "checkpoint" ∷ "coreFingerprint" ∷ "coreId" ∷ "moduleSha256"
    ∷ "moduleUrl" ∷ "providerApiVersion" ∷ "providerId" ∷ "providerVersion" ∷ "romHash"
    ∷ "runtimeBaseUrl" ∷ "targetId" ∷ []

-- The checks of `launchRuntime` on a record.
unfoldable pub runtime_checks : Value → Bool
unfolding exact_keys valid_runtime_identity valid_runtime_digests valid_capabilities
    valid_checkpoint
runtime_checks r =
    exact_keys r runtime_keys
    && valid_runtime_identity r
    && valid_runtime_digests r
    && valid_capabilities (prop "capabilities" r)
    && valid_checkpoint (prop "checkpoint" r) (checkpoint_enabled (prop "capabilities" r))

-- `launchRuntime`: whether the runtime is returned.
unfoldable pub launch_runtime : Option Value → Bool
unfolding runtime_checks
launch_runtime v = on_record runtime_checks v

-- `validRestoreAddress`.
unfoldable pub valid_restore_address : Value → Bool
unfolding exact_keys relative_url
valid_restore_address v =
    if is_text "LOCAL" (prop "kind" v)
    then exact_keys v ("format" ∷ "kind" ∷ "sha256" ∷ "sizeBytes" ∷ [])
    else is_text "HTTP" (prop "kind" v)
      && exact_keys v ("format" ∷ "kind" ∷ "sha256" ∷ "sizeBytes" ∷ "url" ∷ [])
      && on_text relative_url (prop "url" v)

-- `left <= right` on two numbers, the first not negative.
abbrev pub at_most : Option Value → Option Value → Bool
at_most v w =
    on_number (λ n. on_number (λ m. elim m [ pos k ↦ leb (magnitude n) k | negsuc k ↦ false ]) w) v

-- The checks of `validRestore` on two records.
abbrev pub restore_fits : Value → Value → Bool
restore_fits c r =
    valid_restore_address r
    && format_in (prop "format" r) (prop "readFormats" c)
    && valid_digest (prop "sha256" r)
    && positive_integer (prop "sizeBytes" r)
    && at_most (prop "sizeBytes" r) (prop "maxBytes" c)

-- `validRestore`.
unfoldable pub valid_restore : Option Value → Option Value → Bool
unfolding valid_restore_address
valid_restore v checkpoint = is_null v || on_record (λ c. on_record (restore_fits c) v) checkpoint
