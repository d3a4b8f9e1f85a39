-- ===== src/Envelope/Resources.antt =====
-- web/features/player/runtime/envelope.ts: the resources of a launch.
use retrom.Prelude.{
  ℕ, ◌+◌, Bool, true, false, not, ◌&&◌, ◌||◌, List, [], ◌∷◌, ◌++◌, Option, none, some, leb, ltb,
  if◌then◌else◌, length, all, map, drop,
}
use retrom.Text.{Text, lit, same}
use retrom.Value.{Value, null}
use retrom.Envelope.Texts.{
  one_of, includes, relative_url, safe_path, starts_with, ends_with, distinct,
}
use retrom.Envelope.Checks.{
  is_record, prop, exact_keys, on_text, on_array, valid_identity, valid_digest, positive_integer,
  non_negative_integer, bounded, sorted_unique, string_of,
}
use retrom.Envelope.Runtime.{is_number, is_text, is_bool, is_true}
use retrom.Envelope.Browser.{Url, Platform}

-- `=== (boolean)` on a property.
abbrev equals_bool : Bool → Option Value → Bool
equals_bool true v = is_true v
equals_bool false v = is_bool v && not (is_true v)

-- `validBlobResource`.
unfoldable pub valid_blob_resource : Value → Bool
unfolding exact_keys relative_url
valid_blob_resource v =
    exact_keys v
      ("kind" ∷ "ordinal" ∷ "rangeRequired" ∷ "role" ∷ "sha256" ∷ "sizeBytes" ∷ "url" ∷ [])
    && valid_digest (prop "sha256" v)
    && positive_integer (prop "sizeBytes" v)
    && on_text relative_url (prop "url" v)
    && equals_bool (one_of ("SEEKABLE_BLOB" ∷ []) (string_of (prop "kind" v)))
        (prop "rangeRequired" v)

-- `validFileTreeResource`.
unfoldable pub valid_file_tree_resource : Value → Bool
unfolding exact_keys relative_url
valid_file_tree_resource v =
    exact_keys v ("contentDigest" ∷ "indexUrl" ∷ "kind" ∷ "ordinal" ∷ "role" ∷ [])
    && valid_digest (prop "contentDigest" v)
    && on_text relative_url (prop "indexUrl" v)

-- `validFileEntry`.
unfoldable pub valid_file_entry : Value → Bool
unfolding exact_keys relative_url safe_path
valid_file_entry v =
    is_record v
    && exact_keys v ("logicalName" ∷ "sha256" ∷ "sizeBytes" ∷ "url" ∷ "virtualPath" ∷ [])
    && bounded 1 240 (prop "logicalName" v)
    && on_text (safe_path 240) (prop "virtualPath" v)
    && on_text relative_url (prop "url" v)
    && valid_digest (prop "sha256" v)
    && positive_integer (prop "sizeBytes" v)

-- The virtual paths; an entry that has none is no string, as null is none.
abbrev virtual_path : Value → Value
virtual_path v = elim (prop "virtualPath" v) [ none ↦ null | some p ↦ p ]

-- `validFileSetResource`.
unfoldable pub valid_file_set_resource : Value → Bool
unfolding exact_keys valid_file_entry sorted_unique
valid_file_set_resource v =
    exact_keys v ("files" ∷ "kind" ∷ "ordinal" ∷ "role" ∷ [])
    && on_array
        (λ fs. ltb 0 (length fs) && all valid_file_entry fs && sorted_unique (map virtual_path fs))
        (prop "files" v)

-- `["http:", "https:"].includes(url.protocol)`.
abbrev is_web : Url → Bool
is_web url = one_of ("http:" ∷ "https:" ∷ []) url.protocol

-- The item of a resource that stands in the set of identities: `role\0ordinal`.
abbrev pub identity_of : Value → Text
identity_of v = string_of (prop "role" v) ++ 0 ∷ string_of (prop "ordinal" v)

abbrev pub role_of : Value → Text
role_of v = string_of (prop "role" v)

-- `filter((item) => item.role === role)`.
unfoldable pub with_role : Text → List Value → List Value
with_role role [] = []
with_role role (v ∷ vs) =
    if on_text (same role) (prop "role" v) then v ∷ with_role role vs else with_role role vs

-- `every((item, index) => item.ordinal === index)`, from an index on.
unfoldable pub ordinals_from : ℕ → List Value → Bool
ordinals_from i [] = true
ordinals_from i (v ∷ vs) = is_number i (prop "ordinal" v) && ordinals_from (i + 1) vs

module _ (platform : Platform) where
  -- `validOrigin`.
  unfoldable pub valid_origin : Text → Bool
  valid_origin s = elim (platform.new_url s) [
    | none ↦ false
    | some url ↦ is_web url && same url.origin s
  ]

  -- `sameOrigin`.
  unfoldable pub same_origin : Text → Text → Bool
  same_origin s origin = elim (platform.new_url s) [
    | none ↦ false
    | some url ↦ is_web url && same url.origin origin && same url.hash []
  ]

  -- `validWebResource`.
  unfoldable pub valid_web_resource : Value → Bool
  unfolding exact_keys relative_url safe_path valid_origin same_origin
  valid_web_resource v =
      exact_keys v (
        "bridgeUrl" ∷ "contentDigest" ∷ "entryFile" ∷ "entryUrl" ∷ "indexUrl" ∷ "kind" ∷ "ordinal"
        ∷ "origin" ∷ "role" ∷ [])
      && valid_digest (prop "contentDigest" v)
      && on_text relative_url (prop "bridgeUrl" v)
      && on_text relative_url (prop "indexUrl" v)
      && on_text valid_origin (prop "origin" v)
      && on_text (λ o. on_text (λ s. same_origin s o) (prop "entryUrl" v)) (prop "origin" v)
      && on_text (safe_path 1024) (prop "entryFile" v)

  -- `validResource`.
  unfoldable pub valid_resource : Value → Bool
  unfolding valid_blob_resource valid_file_tree_resource valid_web_resource valid_file_set_resource
  valid_resource v =
      let kind = prop "kind" v in
      if one_of ("ROM_BLOB" ∷ "SEEKABLE_BLOB" ∷ "WASM4_CART" ∷ []) (string_of kind)
      then valid_blob_resource v
      else if is_text "FILE_TREE" kind
      then valid_file_tree_resource v
      else if is_text "NATIVE_WEB" kind || is_text "ISOLATED_WEB" kind
      then valid_web_resource v
      else if is_text "BIOS_BUNDLE" kind || is_text "EXTERNAL_FILE_SET" kind
      then valid_file_set_resource v
      else false

  -- The loop of `validResources`, with the identities so far.
  unfoldable pub valid_each : List Text → List Value → Bool
  unfolding valid_resource
  valid_each identities [] = true
  valid_each identities (v ∷ vs) =
      is_record v
      && valid_identity (prop "role" v)
      && non_negative_integer (prop "ordinal" v)
      && not (includes identities (identity_of v))
      && valid_resource v
      && valid_each (identity_of v ∷ identities) vs

  -- `validResources`.
  unfoldable pub valid_resources : Option Value → Bool
  unfolding valid_each with_role ordinals_from distinct
  valid_resources v =
      on_array
        (λ vs.
          leb (length vs) 128
          && valid_each [] vs
          && all (λ role. ordinals_from 0 (with_role role vs)) (distinct (map role_of vs)))
        v

  -- The test of `validResourceBridges` on the bridge of one resource.
  unfoldable pub valid_bridge : Text → Text → Bool
  unfolding starts_with ends_with safe_path
  valid_bridge base bridge = elim (platform.new_url_under (lit "https://retrom.invalid") bridge) [
    | none ↦ false
    | some url ↦
        same url.pathname bridge
        && starts_with (base ++ lit "assets/") bridge
        && ends_with (lit "/bridge.js") bridge
        && safe_path 240 (drop (length base) bridge)
  ]

  -- `validResourceBridges`.
  unfoldable pub valid_resource_bridges : List Value → Text → Bool
  unfolding valid_bridge
  valid_resource_bridges vs base =
      all
        (λ v.
          if is_text "NATIVE_WEB" (prop "kind" v) || is_text "ISOLATED_WEB" (prop "kind" v)
          then on_text (valid_bridge base) (prop "bridgeUrl" v)
          else true)
        vs
