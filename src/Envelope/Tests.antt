-- ===== src/Envelope/Tests.antt =====
-- The boundary of envelope.ts on a concrete envelope.
use retrom.Prelude.{
  ◌≡◌, ◌≢◌, ◌↔◌, ◌⊎◌, List, map, refl, [], ◌∷◌, true, some, pos, negsuc, ◌≤◌, length,
}
use mathlib.Core.List.{reverse_aux, Perm}
use retrom.Text.{Text, lit, same, precedes, IsWellFormed}
use retrom.Decimal.{decimal_ℤ}
use retrom.Regex.{test}
use retrom.CanonicalJson.{parse_canonical_json}
use retrom.CanonicalJson.Scan.{ok, failed, out_of_fuel}
use retrom.CanonicalJson.Canonical.{IsCanonical}
use retrom.CanonicalJson.Sound.{parse_canonical_json-IsCanonical, parse_canonical_json_total}
use retrom.Envelope.Texts.{code_points, safe_path, split_slash, ascending, well_formed}
use retrom.Envelope.Checks.{is_record, get, to_text, own_keys, exact_keys, sorted_unique}
use retrom.Envelope.Json.{json_record}
use retrom.Envelope.Resources.{valid_resources}
use retrom.Envelope.Depth.{nesting, breadth, json_record-bounds}
use retrom.Envelope.Paths.{walk, join_slash, safe_path_stays_below}
use retrom.Envelope.Sorting.{exact_keys_iff}
use retrom.Envelope.Ascending.{StrictlyAscending, sorted_unique_iff}
use retrom.Envelope.WellFormed.{EndsHigh, well_formed_iff}
use retrom.Envelope.Numbering.{IsNumbered, valid_resources-IsNumbered}
use retrom.Envelope.Launch.{IsServed, reference-IsServed}
use retrom.Value.{
  Value, Items, null, bool, num, str, array, object, nil, cons, end, field, plain, custom, items,
}
use retrom.Envelope.Samples.{resources, envelope, browser, reference}
use retrom.Envelope.{
  validate_launch_envelope_boundary, parse_launch_envelope_json, validate_provider_module_reference,
  reference_keys,
}
use retrom.Envelope.Runtime.{valid_session}
use retrom.Envelope.Boundary.{IsLaunch, boundary-IsLaunch, parse_launch_envelope_json-IsLaunch}

boundary_accepts : validate_launch_envelope_boundary browser envelope ≡ some envelope
unfolding validate_launch_envelope_boundary is_record precedes get test to_text code_points
    decimal_ℤ
boundary_accepts = refl

abbrev source : Text
source =
    lit
      "{\"schemaVersion\":1,\"session\":{\"id\":\"01234567-89ab-4def-8123-456789abcdef\",\"purpose\":\"PRODUCT\",\"mode\":\"SINGLE\",\"title\":\"Sonic\",\"platformName\":\"MD\",\"coreName\":\"gpgx\",\"returnTo\":\"/games/7\",\"warnings\":[]},\"runtime\":{\"bundleSha256\":\"aaaaaaaaaaaaaaaaaaaaaaaaaaaaaaaaaaaaaaaaaaaaaaaaaaaaaaaaaaaaaaaa\",\"capabilities\":{\"checkpoint\":true,\"frameCounter\":false,\"frameMode\":\"NONE\",\"inputFilter\":false,\"nativeSettings\":false,\"pause\":true,\"requiresThreads\":false,\"screenshot\":true,\"standardGamepad\":true,\"videoModes\":[\"original\",\"pixel\"],\"volume\":true},\"checkpoint\":{\"maxBytes\":1000,\"readFormats\":[\"state-v1\",\"state-v2\"],\"semantics\":\"INSTANT\",\"writeFormat\":\"state-v2\"},\"coreFingerprint\":\"bbbbbbbbbbbbbbbbbbbbbbbbbbbbbbbbbbbbbbbbbbbbbbbbbbbbbbbbbbbbbbbb\",\"coreId\":\"genesis_plus-gx\",\"moduleSha256\":\"cccccccccccccccccccccccccccccccccccccccccccccccccccccccccccccccc\",\"moduleUrl\":\"/runtime/providers/emu/aaaaaaaaaaaaaaaaaaaaaaaaaaaaaaaaaaaaaaaaaaaaaaaaaaaaaaaaaaaaaaaa/client.mjs\",\"providerApiVersion\":1,\"providerId\":\"emu\",\"providerVersion\":\"1.2.0-rc.1\",\"romHash\":\"dddddddddddddddddddddddddddddddddddddddddddddddddddddddddddddddd\",\"runtimeBaseUrl\":\"/runtime/providers/emu/aaaaaaaaaaaaaaaaaaaaaaaaaaaaaaaaaaaaaaaaaaaaaaaaaaaaaaaaaaaaaaaa/\",\"targetId\":\"md\"},\"resources\":[{\"kind\":\"ROM_BLOB\",\"ordinal\":0,\"rangeRequired\":false,\"role\":\"rom\",\"sha256\":\"eeeeeeeeeeeeeeeeeeeeeeeeeeeeeeeeeeeeeeeeeeeeeeeeeeeeeeeeeeeeeeee\",\"sizeBytes\":512,\"url\":\"/content/1\"},{\"kind\":\"FILE_TREE\",\"ordinal\":1,\"role\":\"rom\",\"contentDigest\":\"ffffffffffffffffffffffffffffffffffffffffffffffffffffffffffffffff\",\"indexUrl\":\"/content/2\"}],\"targetOptions\":{},\"restore\":{\"kind\":\"HTTP\",\"format\":\"state-v1\",\"sha256\":\"9999999999999999999999999999999999999999999999999999999999999999\",\"sizeBytes\":100,\"url\":\"/api/v1/saves/1/payload\"}}"

source_accepted : parse_launch_envelope_json browser source ≡ some envelope
unfolding parse_launch_envelope_json is_record precedes get test to_text code_points decimal_ℤ
source_accepted = refl

boundary-IsLaunch_example : (envelope ≡ envelope) × IsLaunch envelope
boundary-IsLaunch_example = boundary-IsLaunch browser envelope envelope boundary_accepts

parse_launch_envelope_json-IsLaunch_example :
    (parse_canonical_json source ≡ ok envelope) × IsLaunch envelope × IsCanonical envelope
parse_launch_envelope_json-IsLaunch_example =
    parse_launch_envelope_json-IsLaunch browser source envelope source_accepted

abbrev short_source : Text
short_source = lit " {\"a\":[1,-20,true , null],\"b\":\"x\\n\"} "

abbrev short_value : Value
short_value = object plain (
    field (lit "a")
      (array (cons (num (pos 1)) (cons (num (negsuc 19)) (cons (bool true) (cons null nil)))))
      (field (lit "b") (str (b'x' ∷ 10 ∷ [])) end))

short_parsed : parse_canonical_json short_source ≡ ok short_value
unfolding parse_canonical_json same
short_parsed = refl

-- A key that occurs twice, a number with a leading zero, and text behind the value.
rejected :
    (parse_canonical_json (lit "{\"a\":1,\"a\":2}") ≡ failed)
    × (parse_canonical_json (lit "01") ≡ failed)
    × (parse_canonical_json (lit "9007199254740992") ≡ failed)
    × (parse_canonical_json (lit "[] []") ≡ failed)
unfolding parse_canonical_json same
rejected = (refl, refl, refl, refl)

parse_canonical_json-IsCanonical_example : IsCanonical short_value
parse_canonical_json-IsCanonical_example =
    parse_canonical_json-IsCanonical short_source short_value short_parsed

parse_canonical_json_total_example : parse_canonical_json (lit "[[{\"a\":") ≢ out_of_fuel
parse_canonical_json_total_example = parse_canonical_json_total (lit "[[{\"a\":")

abbrev resource_items : Items
resource_items = elim resources [ array vs ↦ vs | _ ↦ nil ]

resources_accepted : valid_resources browser (some (array resource_items)) ≡ true
unfolding valid_resources is_record precedes get test to_text code_points decimal_ℤ same
resources_accepted = refl

valid_resources-IsNumbered_example : IsNumbered (items resource_items)
valid_resources-IsNumbered_example =
    valid_resources-IsNumbered browser resource_items resources_accepted

abbrev bios : Text
bios = lit "bios/gg.bin"

bios_accepted : safe_path 240 bios ≡ true
unfolding safe_path same
bios_accepted = refl

safe_path_stays_below_example :
    (walk (lit "data" ∷ []) (split_slash bios)
      ≡ some (reverse_aux (split_slash bios) (lit "data" ∷ [])))
    × (join_slash (split_slash bios) ≡ bios)
    × (length bios ≤ 240)
safe_path_stays_below_example = safe_path_stays_below 240 bios (lit "data" ∷ []) bios_accepted

reference_keys-ascending : ascending (map lit reference_keys) ≡ true
unfolding ascending precedes
reference_keys-ascending = refl

exact_keys_iff_example :
    (exact_keys envelope reference_keys ≡ true) ↔ Perm (own_keys envelope) (map lit reference_keys)
exact_keys_iff_example = exact_keys_iff envelope reference_keys reference_keys-ascending

sorted_unique_iff_example :
    (sorted_unique (str (lit "a") ∷ str (lit "b") ∷ []) ≡ true)
    ↔ ((ss : List Text) × (str (lit "a") ∷ str (lit "b") ∷ [] ≡ map str ss) × StrictlyAscending ss)
sorted_unique_iff_example = sorted_unique_iff (str (lit "a") ∷ str (lit "b") ∷ [])

well_formed_iff_example :
    (well_formed (b'x' ∷ 0xd800 ∷ []) ≡ true)
    ↔ (IsWellFormed (b'x' ∷ 0xd800 ∷ []) ⊎ EndsHigh (b'x' ∷ 0xd800 ∷ []))
well_formed_iff_example = well_formed_iff (b'x' ∷ 0xd800 ∷ [])

short_is_json : json_record short_value ≡ true
unfolding json_record
short_is_json = refl

json_record-bounds_example : (nesting short_value ≤ 8) × (breadth short_value ≤ 256)
json_record-bounds_example = json_record-bounds short_value short_is_json

reference_accepted : validate_provider_module_reference reference ≡ some reference
unfolding validate_provider_module_reference is_record precedes get test to_text same
reference_accepted = refl

reference-IsServed_example : (reference ≡ reference) × IsServed reference
reference-IsServed_example = reference-IsServed reference reference reference_accepted

-- A key `__proto__` is no own property, so it may stand twice, and it does not count as a key.
proto_twice :
    parse_canonical_json (lit "{\"__proto__\":[],\"__proto__\":[]}")
    ≡ ok (object (custom (array nil)) end)
unfolding parse_canonical_json same
proto_twice = refl

abbrev wrapped : Text → Value
wrapped s = array (cons (str s) nil)

-- The purpose and the mode of a session may be arrays of one text.
wrapped_accepted :
    valid_session (
      some (
        object plain (
          field (lit "id") (str (lit "01234567-89ab-4def-8123-456789abcdef")) (
            field (lit "purpose") (wrapped (lit "PRODUCT")) (
              field (lit "mode") (wrapped (lit "SINGLE")) (
                field (lit "title") (str (lit "Sonic")) (
                  field (lit "platformName") (str (lit "MD")) (
                    field (lit "coreName") (str (lit "Genesis")) (
                      field
                        (lit "returnTo")
                        (str (lit "/games/7"))
                        (field (lit "warnings") (array nil) end))))))))))
    ≡ true
unfolding valid_session get is_record precedes to_text code_points decimal_ℤ test same well_formed
wrapped_accepted = refl
