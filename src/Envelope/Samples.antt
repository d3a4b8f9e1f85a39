-- ===== src/Envelope/Samples.antt =====
-- A concrete launch envelope, as envelope.ts validates it, and a concrete provider reference.
use retrom.Prelude.{true, false, none, some, pos}
use retrom.Text.{lit}
use retrom.Value.{Value, bool, num, str, array, object, nil, cons, end, field, plain}
use retrom.Envelope.Browser.{Platform}

abbrev pub session : Value
session = object plain (
    field (lit "id") (str (lit "01234567-89ab-4def-8123-456789abcdef")) (
      field (lit "purpose") (str (lit "PRODUCT")) (
        field (lit "mode") (str (lit "SINGLE")) (
          field (lit "title") (str (lit "Sonic")) (
            field (lit "platformName") (str (lit "MD")) (
              field (lit "coreName") (str (lit "gpgx")) (
                field (lit "returnTo") (str (lit "/games/7"))
                  (field (lit "warnings") (array nil) end))))))))

abbrev pub runtime : Value
runtime = object plain (
    field (lit "bundleSha256")
      (str (lit "aaaaaaaaaaaaaaaaaaaaaaaaaaaaaaaaaaaaaaaaaaaaaaaaaaaaaaaaaaaaaaaa"))
      (field (lit "capabilities")
        (object plain (
          field (lit "checkpoint") (bool true) (
            field (lit "frameCounter") (bool false) (
              field (lit "frameMode") (str (lit "NONE")) (
                field (lit "inputFilter") (bool false) (
                  field (lit "nativeSettings") (bool false) (
                    field (lit "pause") (bool true) (
                      field (lit "requiresThreads") (bool false) (
                        field (lit "screenshot") (bool true) (
                          field (lit "standardGamepad") (bool true) (
                            field (lit "videoModes")
                              (array (cons (str (lit "original")) (cons (str (lit "pixel")) nil)))
                              (field (lit "volume") (bool true) end))))))))))))
        (field (lit "checkpoint")
          (object plain (
            field (lit "maxBytes") (num (pos 1000)) (
              field (lit "readFormats")
                (array (cons (str (lit "state-v1")) (cons (str (lit "state-v2")) nil)))
                (field (lit "semantics") (str (lit "INSTANT"))
                  (field (lit "writeFormat") (str (lit "state-v2")) end)))))
          (field (lit "coreFingerprint")
            (str (lit "bbbbbbbbbbbbbbbbbbbbbbbbbbbbbbbbbbbbbbbbbbbbbbbbbbbbbbbbbbbbbbbb"))
            (field (lit "coreId") (str (lit "genesis_plus-gx")) (
              field (lit "moduleSha256")
                (str (lit "cccccccccccccccccccccccccccccccccccccccccccccccccccccccccccccccc"))
                (field (lit "moduleUrl")
                  (str (
                    lit
                      "/runtime/providers/emu/aaaaaaaaaaaaaaaaaaaaaaaaaaaaaaaaaaaaaaaaaaaaaaaaaaaaaaaaaaaaaaaa/client.mjs"))
                  (field (lit "providerApiVersion") (num (pos 1)) (
                    field (lit "providerId") (str (lit "emu")) (
                      field (lit "providerVersion") (str (lit "1.2.0-rc.1")) (
                        field (lit "romHash")
                          (str (
                            lit "dddddddddddddddddddddddddddddddddddddddddddddddddddddddddddddddd"))
                          (field (lit "runtimeBaseUrl")
                            (str (
                              lit
                                "/runtime/providers/emu/aaaaaaaaaaaaaaaaaaaaaaaaaaaaaaaaaaaaaaaaaaaaaaaaaaaaaaaaaaaaaaaa/"))
                            (field (lit "targetId") (str (lit "md")) end)))))))))))))

abbrev pub resources : Value
resources = array (
    cons
      (object plain (
        field (lit "kind") (str (lit "ROM_BLOB")) (
          field (lit "ordinal") (num (pos 0)) (
            field (lit "rangeRequired") (bool false) (
              field (lit "role") (str (lit "rom")) (
                field (lit "sha256")
                  (str (lit "eeeeeeeeeeeeeeeeeeeeeeeeeeeeeeeeeeeeeeeeeeeeeeeeeeeeeeeeeeeeeeee"))
                  (field (lit "sizeBytes") (num (pos 512))
                    (field (lit "url") (str (lit "/content/1")) end))))))))
      (cons
        (object plain (
          field (lit "kind") (str (lit "FILE_TREE")) (
            field (lit "ordinal") (num (pos 1)) (
              field (lit "role") (str (lit "rom")) (
                field (lit "contentDigest")
                  (str (lit "ffffffffffffffffffffffffffffffffffffffffffffffffffffffffffffffff"))
                  (field (lit "indexUrl") (str (lit "/content/2")) end))))))
        nil))

abbrev pub restore : Value
restore = object plain (
    field (lit "kind") (str (lit "HTTP")) (
      field (lit "format") (str (lit "state-v1")) (
        field (lit "sha256")
          (str (lit "9999999999999999999999999999999999999999999999999999999999999999"))
          (field (lit "sizeBytes") (num (pos 100))
            (field (lit "url") (str (lit "/api/v1/saves/1/payload")) end)))))

abbrev pub envelope : Value
envelope = object plain (
    field (lit "schemaVersion") (num (pos 1)) (
      field (lit "session") session (
        field (lit "runtime") runtime (
          field (lit "resources") resources
            (field (lit "targetOptions") (object plain end) (field (lit "restore") restore end))))))

-- A browser in which no text is a URL: the envelope has no resource that needs one.
abbrev pub browser : Platform
browser = record { new_url = λ _. none; new_url_under = λ _ _. none; json_bytes = λ _. some 2 }

abbrev pub reference : Value
reference = object plain (
    field (lit "providerId") (str (lit "emu")) (
      field (lit "providerVersion") (str (lit "1.2.0")) (
        field (lit "providerApiVersion") (num (pos 1)) (
          field (lit "bundleSha256")
            (str (lit "aaaaaaaaaaaaaaaaaaaaaaaaaaaaaaaaaaaaaaaaaaaaaaaaaaaaaaaaaaaaaaaa"))
            (field (lit "moduleSha256")
              (str (lit "cccccccccccccccccccccccccccccccccccccccccccccccccccccccccccccccc"))
              (field (lit "moduleUrl")
                (str (
                  lit
                    "/runtime/providers/emu/aaaaaaaaaaaaaaaaaaaaaaaaaaaaaaaaaaaaaaaaaaaaaaaaaaaaaaaaaaaaaaaa/dev/cccccccccccccccccccccccccccccccccccccccccccccccccccccccccccccccc/client.mjs"))
                (field (lit "runtimeBaseUrl")
                  (str (
                    lit
                      "/runtime/providers/emu/aaaaaaaaaaaaaaaaaaaaaaaaaaaaaaaaaaaaaaaaaaaaaaaaaaaaaaaaaaaaaaaa/dev/cccccccccccccccccccccccccccccccccccccccccccccccccccccccccccccccc/"))
                  end)))))))
