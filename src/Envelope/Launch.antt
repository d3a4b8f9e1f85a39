-- ===== src/Envelope/Launch.antt =====
-- What an accepted launch envelope (envelope.ts) guarantees to the player: where the provider's
-- module is served from, and that the save to restore fits the checkpoint.
use retrom.Prelude.{
  ℕ, ◌≤◌, ◌<◌, ◌≡◌, refl, sym, ◌⊎◌, inl, inr, Bool, true, false, ◌&&◌, ◌||◌, ◌++◌, Option, none,
  some, arith, if◌then◌else◌, Bool-cases, leb→le, leb, ℤ, pos, negsuc, and-eq-true_iff,
}
use retrom.Text.{Text, lit, same, same_sound}
use retrom.Value.{Value, null, num, str, bool, array, object, items, Items}
use retrom.Regex.{Regex, test, Matches}
use retrom.Regex.Laws.{test_iff}
use retrom.Envelope.Patterns.{identity, digest, semver}
use retrom.Envelope.Checks.{
  prop, on_text, on_record, on_array, string_of, to_text, is_record, exact_keys, valid_identity,
  valid_digest, positive_integer, is_safe_integer, is_positive,
}
use retrom.Envelope.Runtime.{
  is_null, includes_text, format_in, at_most, restore_fits, valid_restore, valid_restore_address,
  is_number,
}
use retrom.Envelope.Inversion.{on_text_sound, on_number_sound, on_array_sound, on_record_sound}
use retrom.Envelope.{
  provider_base, valid_base_url, reference_keys, valid_provider_module_urls,
  validate_provider_module_reference,
}

-- The directory of a bundle, and that of one of its development builds.
abbrev pub bundle_path : Text → Text → Text
bundle_path provider bundle = lit "/runtime/providers/" ++ provider ++ lit "/" ++ bundle ++ lit "/"

abbrev pub build_path : Text → Text → Text → Text
build_path provider bundle build = bundle_path provider bundle ++ lit "dev/" ++ build ++ lit "/"

-- The module stands under the provider's own directory: its path is made of an identity and a
-- digest, with a second digest for a development build.
pub record IsServed (r : Value) : Type 0 where
  pub provider : Text
  pub bundle : Text
  pub build : Text
  pub base : Text
  pub provider_id : prop "providerId" r ≡ some (str provider)
  pub bundle_sha256 : prop "bundleSha256" r ≡ some (str bundle)
  pub module_sha256 : prop "moduleSha256" r ≡ some (str build)
  pub provider_valid : Matches identity provider
  pub bundle_valid : Matches digest bundle
  pub build_valid : Matches digest build
  pub base_url : prop "runtimeBaseUrl" r ≡ some (str base)
  pub base_path : (base ≡ bundle_path provider bundle) ⊎ (base ≡ build_path provider bundle build)
  pub module_url : prop "moduleUrl" r ≡ some (str (base ++ lit "client.mjs"))

Matches-prop :
    (p : Regex) (o : Option Value)
    → on_text (test p) o ≡ true
    → (s : Text) × (o ≡ some (str s)) × Matches p s
Matches-prop p o h = let (s, e, t) = on_text_sound (test p) o h in (s, e, (test_iff p s).0 t)

string_of-str : (o : Option Value) (s : Text) → o ≡ some (str s) → string_of o ≡ s
unfolding to_text
string_of-str o s e = rw e

or-same : (s t u : Text) → (same s u || same t u) ≡ true → (u ≡ s) ⊎ (u ≡ t)
or-same s t u h = elim (Bool-cases (same s u)) [
  | inl e ↦ inl (sym (same_sound s u e))
  | inr e ↦ inr (sym (same_sound t u (rw e at h)))
]

pub urls-IsServed :
    (r : Value)
    → valid_identity (prop "providerId" r) ≡ true
    → valid_digest (prop "bundleSha256" r) ≡ true
    → valid_digest (prop "moduleSha256" r) ≡ true
    → valid_provider_module_urls r ≡ true
    → IsServed r
unfolding valid_provider_module_urls provider_base
urls-IsServed r hp hb hm h =
    let (p, ep, mp) = Matches-prop identity (prop "providerId" r) hp in
    let (b, eb, mb) = Matches-prop digest (prop "bundleSha256" r) hb in
    let (m, em, mm) = Matches-prop digest (prop "moduleSha256" r) hm in
    let (u, eu, tu) = on_text_sound (valid_base_url r) (prop "runtimeBaseUrl" r) h in
    let (base, client) =
      (and-eq-true_iff
          (same (provider_base r) u
            || same (provider_base r ++ lit "dev/" ++ string_of (prop "moduleSha256" r) ++ lit "/")
                u)
          (on_text (same (u ++ lit "client.mjs")) (prop "moduleUrl" r))).0
        tu in
    let (s, es, ts) = on_text_sound (same (u ++ lit "client.mjs")) (prop "moduleUrl" r) client in
    record {
      provider = p;
      bundle = b;
      build = m;
      base = u;
      provider_id = ep;
      bundle_sha256 = eb;
      module_sha256 = em;
      provider_valid = mp;
      bundle_valid = mb;
      build_valid = mm;
      base_url = eu;
      base_path = or-same (bundle_path p b) (build_path p b m) u (
          rw
            (
              string_of-str (prop "providerId" r) p ep,
              string_of-str (prop "bundleSha256" r) b eb,
              string_of-str (prop "moduleSha256" r) m em,
            )
            at base);
      module_url = rw (same_sound (u ++ lit "client.mjs") s ts) es;
    }

reference_parts :
    (a b c d e f g h i u : Bool) (v w : Value)
    → (if a && b && c && d && e && f && g && h && i then (if u then some v else none) else none)
      ≡ some w
    → (w ≡ v) × ((d ≡ true) × (f ≡ true) × (g ≡ true)) × (u ≡ true)
reference_parts a b c d e f g h i u v w p = ground arith

-- A provider reference that is accepted is returned as it is, and its module is served from the
-- provider's own directory.
pub reference-IsServed :
    (v w : Value) → validate_provider_module_reference v ≡ some w → (w ≡ v) × IsServed v
unfolding validate_provider_module_reference
reference-IsServed v w h =
    let (same, checks, urls) =
      reference_parts (is_record v) (exact_keys v reference_keys)
        (is_number 1 (prop "providerApiVersion" v)) (valid_identity (prop "providerId" v))
        (on_text (test semver) (prop "providerVersion" v)) (valid_digest (prop "bundleSha256" v))
        (valid_digest (prop "moduleSha256" v)) (on_text (λ _. true) (prop "moduleUrl" v))
        (on_text (λ _. true) (prop "runtimeBaseUrl" v)) (valid_provider_module_urls v) v w h in
    (same, urls-IsServed v checks.0 checks.1 checks.2 urls)

-- A save to restore fits its checkpoint: its format is one that the checkpoint reads, and its size
-- is positive and at most that of the checkpoint.
pub record IsRestorable (restore checkpoint : Value) : Type 0 where
  pub size : ℕ
  pub bound : ℕ
  pub format : Text
  pub formats : Items
  pub size_bytes : prop "sizeBytes" restore ≡ some (num (pos size))
  pub max_bytes : prop "maxBytes" checkpoint ≡ some (num (pos bound))
  pub positive : 0 < size
  pub fits : size ≤ bound
  pub named : prop "format" restore ≡ some (str format)
  pub listed : prop "readFormats" checkpoint ≡ some (array formats)
  pub readable : includes_text format (items formats) ≡ true

positive_sound :
    (o : Option Value) → positive_integer o ≡ true → (n : ℕ) × (o ≡ some (num (pos n))) × (0 < n)
positive_sound o h = number (on_number_sound _ o h)
  where
    number :
        (n : ℤ) × (o ≡ some (num n)) × ((is_safe_integer n && is_positive n) ≡ true)
        → (n : ℕ) × (o ≡ some (num (pos n))) × (0 < n)
    number (pos n, e, t) = (n, e, ground arith)
    number (negsuc n, e, t) = ground arith

at_most_sound :
    (o q : Option Value) (n : ℕ)
    → o ≡ some (num (pos n))
    → at_most o q ≡ true
    → (m : ℕ) × (q ≡ some (num (pos m))) × (n ≤ m)
at_most_sound o q n e h = number (on_number_sound _ q (rw e at h))
  where
    number :
        (m : ℤ) × (q ≡ some (num m)) × ((elim m [ pos k ↦ leb n k | negsuc k ↦ false ]) ≡ true)
        → (m : ℕ) × (q ≡ some (num (pos m))) × (n ≤ m)
    number (pos m, e, t) = (m, e, leb→le n m t)
    number (negsuc m, e, t) = cc

format_in_sound :
    (f fs : Option Value)
    → format_in f fs ≡ true
    → (s : Text) × (ts : Items) × (f ≡ some (str s))
      × (fs ≡ some (array ts))
      × (includes_text s (items ts) ≡ true)
format_in_sound f fs h =
    let (s, e, t) = on_text_sound (λ s. on_array (includes_text s) fs) f h in
    let (ts, k, u) = on_array_sound (includes_text s) fs t in (s, ts, e, k, u)

restore_parts :
    (a b c d e : Bool) → (a && b && c && d && e) ≡ true → (b ≡ true) × (d ≡ true) × (e ≡ true)
restore_parts a b c d e h = ground arith

is_null_sound : (o : Option Value) → is_null o ≡ true → o ≡ some null
is_null_sound (some null) h = refl
is_null_sound (some (bool b)) h = cc
is_null_sound (some (str s)) h = cc
is_null_sound (some (num n)) h = cc
is_null_sound (some (array vs)) h = cc
is_null_sound (some (object proto fs)) h = cc
is_null_sound none h = cc

-- A restore that is accepted is null, or fits the checkpoint that the runtime declares.
pub valid_restore-IsRestorable :
    (restore checkpoint : Option Value)
    → valid_restore restore checkpoint ≡ true
    → (restore ≡ some null)
      ⊎ ((r c : Value) × (restore ≡ some r) × (checkpoint ≡ some c) × IsRestorable r c)
unfolding valid_restore
valid_restore-IsRestorable restore checkpoint h = elim (Bool-cases (is_null restore)) [
  | inl e ↦ inl (is_null_sound restore e)
  | inr e ↦
      let (c, ec, tc) =
        on_record_sound (λ c. on_record (restore_fits c) restore) checkpoint (rw e at h) in
      let (r, er, tr) = on_record_sound (restore_fits c) restore tc in
      let (readable, positive, fits) =
        restore_parts (valid_restore_address r) (format_in (prop "format" r) (prop "readFormats" c))
          (valid_digest (prop "sha256" r)) (positive_integer (prop "sizeBytes" r))
          (at_most (prop "sizeBytes" r) (prop "maxBytes" c)) tr in
      let (s, ts, es, ets, listed) =
        format_in_sound (prop "format" r) (prop "readFormats" c) readable in
      let (n, en, lt) = positive_sound (prop "sizeBytes" r) positive in
      let (m, em, le) = at_most_sound (prop "sizeBytes" r) (prop "maxBytes" c) n en fits in
      inr (
        r,
        c,
        er,
        ec,
        record {
          size = n;
          bound = m;
          format = s;
          formats = ts;
          size_bytes = en;
          max_bytes = em;
          positive = lt;
          fits = le;
          named = es;
          listed = ets;
          readable = listed;
        },
      )
]
