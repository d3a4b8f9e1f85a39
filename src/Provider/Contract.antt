-- ===== src/Provider/Contract.antt =====
-- web/features/player/runtime/provider-dispatcher.ts: the tests of an imported module and of the
-- runtime that it makes.
use retrom.Prelude.{
  ℕ, Bool, true, false, not, ◌&&◌, ◌||◌, List, [], ◌∷◌, Option, none, some, String, ◌==◌,
  if◌then◌else◌, all, map, ℤ, pos, negsuc,
}
use retrom.Text.{Text, lit, same}
use retrom.Value.{Value, null, bool, num, str, array, object, has_own}
use retrom.Envelope.Texts.{sort, all_same}
use retrom.Envelope.Checks.{own_fields, prop, exact_keys, on_record, on_array, on_text, on_number}
use retrom.Envelope.Runtime.{is_null}
use retrom.Provider.Effects.{Outcome, Run, pure, throw, ◌>>=◌, ◌>>◌}
use retrom.Provider.Fetching.{require, called, module_error}

-- A property of a value that is made by foreign code.
pub data Member : Type 0 where
  text : Text → Member
  number : ℕ → Member
  function other absent : Member

-- What an import yields: a module has its exports as own properties, and no prototype.
pub data Imported : Type 0 where
  exports : List (Text × Member) → Imported
  no_record : Imported

abbrev pub export_keys : List (Text × Member) → List Text
export_keys [] = []
export_keys ((k, m) ∷ ms) = k ∷ export_keys ms

abbrev pub export_of : Text → List (Text × Member) → Member
export_of k [] = absent
export_of k ((j, m) ∷ ms) = if same j k then m else export_of k ms

abbrev pub is_function : Member → Bool
is_function function = true
is_function (text s) = false
is_function (number n) = false
is_function other = false
is_function absent = false

-- `member === value`, with a value of the validated reference.
abbrev pub equals : Member → Option Value → Bool
equals (text s) v = on_text (same s) v
equals (number n) (some (num (pos m))) = n == m
equals (number n) _ = false
equals function v = false
equals other v = false
equals absent v = false

abbrev pub module_keys : List String
module_keys =
    "clearContentCache" ∷ "createRuntime" ∷ "inspectContentCache" ∷ "providerApiVersion"
    ∷ "providerId" ∷ "providerVersion" ∷ "reclaimContentCache" ∷ []

abbrev pub has_function : List (Text × Member) → String → Bool
has_function ms k = is_function (export_of (lit k) ms)

abbrev pub has_value : Value → List (Text × Member) → String → Bool
has_value runtime ms k = equals (export_of (lit k) ms) (prop k runtime)

-- The tests of `validateProviderModule`.
unfoldable pub is_provider_module : Value → List (Text × Member) → Bool
unfolding sort all_same
is_provider_module runtime ms =
    all_same (sort (export_keys ms)) (map lit module_keys)
    && all (has_value runtime ms) ("providerId" ∷ "providerVersion" ∷ "providerApiVersion" ∷ [])
    && all (has_function ms)
        ("createRuntime" ∷ "inspectContentCache" ∷ "clearContentCache" ∷ "reclaimContentCache" ∷ [])

-- `validateProviderModule`.
unfoldable pub validate_provider_module : Imported → Value → Run (List (Text × Member))
unfolding is_provider_module
validate_provider_module no_record runtime = throw module_error
validate_provider_module (exports ms) runtime =
    require (is_provider_module runtime ms) module_error >> pure ms

-- The runtime that a provider makes: its properties, and what two of its methods do when they are
-- called.
pub record PlayerRuntime : Type 0 where
  pub is_object : Bool
  pub member : Text → Member
  pub get_state : Outcome (Option Value)
  pub get_capabilities : Outcome (Option Value)

abbrev pub runtime_methods : List String
runtime_methods =
    "mount" ∷ "pause" ∷ "resume" ∷ "checkpoint" ∷ "screenshot" ∷ "exit" ∷ "getState"
    ∷ "getCapabilities" ∷ "getCheckpointAvailability" ∷ "getInputCapabilities" ∷ "getCanvas"
    ∷ "getFrameCount" ∷ "setVolume" ∷ "setVideoMode" ∷ "openNativeSettings" ∷ "closeNativeSettings"
    ∷ "setInputFilter" ∷ "setHostShortcutPolicy" ∷ "subscribe" ∷ []

abbrev pub is_undefined : Option Value → Bool
is_undefined none = true
is_undefined (some v) = false

abbrev pub is_bool_of : Bool → Option Value → Bool
is_bool_of true (some (bool b)) = b
is_bool_of false (some (bool b)) = not b
is_bool_of a (some null) = false
is_bool_of a (some (num n)) = false
is_bool_of a (some (str s)) = false
is_bool_of a (some (array vs)) = false
is_bool_of a (some (object proto fs)) = false
is_bool_of a none = false

abbrev pub same_number : ℤ → ℤ → Bool
same_number (pos n) (pos m) = n == m
same_number (negsuc n) (negsuc m) = n == m
same_number (pos n) (negsuc m) = false
same_number (negsuc n) (pos m) = false

-- `===` on values; no two of their arrays and objects are one.
unfoldable pub strict_same : Option Value → Option Value → Bool
strict_same none w = is_undefined w
strict_same (some null) w = is_null w
strict_same (some (bool b)) w = is_bool_of b w
strict_same (some (num n)) w = on_number (same_number n) w
strict_same (some (str s)) w = on_text (same s) w
strict_same (some (array vs)) w = false
strict_same (some (object proto fs)) w = false

-- `stringArraysEqual`: the lengths and each item.
unfoldable pub all_strict_same : List Value → List Value → Bool
unfolding strict_same
all_strict_same [] [] = true
all_strict_same (v ∷ vs) (w ∷ ws) = strict_same (some v) (some w) && all_strict_same vs ws
all_strict_same [] (w ∷ ws) = false
all_strict_same (v ∷ vs) [] = false

abbrev pub string_arrays_equal : Option Value → Option Value → Bool
string_arrays_equal actual expected = on_array (λ vs. on_array (all_strict_same vs) expected) actual

abbrev pub scalar_keys : List String
scalar_keys =
    "checkpoint" ∷ "frameCounter" ∷ "frameMode" ∷ "inputFilter" ∷ "nativeSettings" ∷ "pause"
    ∷ "requiresThreads" ∷ "screenshot" ∷ "standardGamepad" ∷ "volume" ∷ []

abbrev pub session_keys : Bool → List String
session_keys true =
    "checkpoint" ∷ "contentLoading" ∷ "frameCounter" ∷ "frameMode" ∷ "inputFilter"
    ∷ "nativeSettings" ∷ "pause" ∷ "requiresThreads" ∷ "screenshot" ∷ "standardGamepad"
    ∷ "videoModes" ∷ "volume" ∷ []
session_keys false =
    "checkpoint" ∷ "frameCounter" ∷ "frameMode" ∷ "inputFilter" ∷ "nativeSettings" ∷ "pause"
    ∷ "requiresThreads" ∷ "screenshot" ∷ "standardGamepad" ∷ "videoModes" ∷ "volume" ∷ []

abbrev pub agrees : Value → Value → String → Bool
agrees actual expected k = strict_same (prop k actual) (prop k expected)

-- `validSessionCapabilities`, for capabilities that are an object.
unfoldable pub session_capabilities_agree : Value → Value → Bool
unfolding exact_keys all_strict_same
session_capabilities_agree expected actual =
    exact_keys actual (session_keys (has_own (lit "contentLoading") (own_fields actual)))
    && agrees actual expected "contentLoading"
    && all (agrees actual expected) scalar_keys
    && string_arrays_equal (prop "videoModes" actual) (prop "videoModes" expected)

unfoldable pub valid_session_capabilities : Option Value → Option Value → Bool
unfolding session_capabilities_agree
valid_session_capabilities actual expected =
    on_record (λ e. on_record (session_capabilities_agree e) actual) expected

abbrev pub method_is_function : PlayerRuntime → String → Bool
method_is_function r k = is_function (r.member (lit k))

-- `envelope.runtime.checkpoint?.semantics === "GAME_SAVE"`.
abbrev pub saves_game : Value → Bool
saves_game runtime =
    on_record (λ c. on_text (same (lit "GAME_SAVE")) (prop "semantics" c))
      (prop "checkpoint" runtime)

-- The end of `validatePlayerRuntime`: the capabilities, and the state.
abbrev pub check_capabilities : Value → Option Value → Run (Unit {0})
check_capabilities runtime capabilities =
    require (valid_session_capabilities capabilities (prop "capabilities" runtime)) module_error

abbrev pub check_state : PlayerRuntime → Value → Option Value → Run (Unit {0})
check_state r runtime state =
    require (on_text (same (lit "CREATED")) state) module_error
    >> (called r.get_capabilities >>= check_capabilities runtime)

abbrev pub may_save : PlayerRuntime → Value → Bool
may_save r runtime = not (saves_game runtime) || method_is_function r "acknowledgeCheckpoint"

-- `validatePlayerRuntime`, with `envelope.runtime`.
unfoldable pub validate_player_runtime : PlayerRuntime → Value → Run (Unit {0})
unfolding valid_session_capabilities
validate_player_runtime r runtime =
    require r.is_object module_error
    >> (require (all (method_is_function r) runtime_methods) module_error
        >> (require (may_save r runtime) module_error
            >> (called r.get_state >>= check_state r runtime)))
