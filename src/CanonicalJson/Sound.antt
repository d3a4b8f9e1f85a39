-- ===== src/CanonicalJson/Sound.antt =====
-- The fuel of the parser of canonical-json.ts always suffices, and what it returns is canonical.
use retrom.Prelude.{
  ℕ, zero, suc, ◌+◌, ◌*◌, ◌<◌, ◌≡◌, ◌≢◌, refl, subst, true, false, [], ◌∷◌, arith, length, tail,
  Bool-cases, inl, inr,
}
use retrom.Text.{Text, IsWellFormed, lit, same, same_comm}
use retrom.Value.{
  Value, Fields, Proto, assign, has_own, snoc, set_proto, has_setter, has_own-snoc, proto_key, null,
  bool,
}
use retrom.CanonicalJson.{value, items, members, parse_canonical_json}
use retrom.CanonicalJson.Scan.{Result, ok, failed, out_of_fuel, starts, whitespace, word}
use retrom.CanonicalJson.Strings.{quote}
use retrom.CanonicalJson.Outcome.{
  Ensures, returned, thrown, Reads, Ensures-if, Ensures-bind, Ensures-weaken, Ensures-ok,
  Ensures-ne_out_of_fuel,
}
use retrom.CanonicalJson.Canonical.{
  IsCanonical, of_null, of_bool, of_num, of_str, of_array, of_object, AreCanonical, no_items, item,
  HasCanonical, no_fields, property, ProtoIsCanonical, of_plain, of_absent, of_custom,
}
use retrom.CanonicalJson.Reading.{length-whitespace, word-Reads, string-Reads, number-Reads}

has_own-snoc-false :
    (k j : Text) (v : Value) (fs : Fields)
    → same j k ≡ false
    → has_own k fs ≡ false
    → has_own k (snoc fs j v) ≡ false
has_own-snoc-false k j v fs p q = rw (has_own-snoc k j v fs, p, q)

snoc-HasCanonical :
    {k : Text} {v : Value} {fs : Fields}
    → IsWellFormed k
    → IsCanonical v
    → has_own k fs ≡ false
    → HasCanonical fs
    → HasCanonical (snoc fs k v)
unfolding has_own
snoc-HasCanonical {k} {v} wk cv h no_fields = property wk cv refl no_fields
snoc-HasCanonical {k} {v} wk cv h (property {k = j} {fs = fs} wj cw hj cfs) =
    property wj cw (has_own-snoc-false j k v fs (ground (arith, same_comm j k)) hj)
      (snoc-HasCanonical wk cv (ground arith) cfs)

set_proto-IsCanonical :
    {proto : Proto} {v : Value}
    → ProtoIsCanonical proto
    → IsCanonical v
    → ProtoIsCanonical (set_proto proto v)
set_proto-IsCanonical p of_null = of_absent
set_proto-IsCanonical p of_bool = p
set_proto-IsCanonical p (of_num h) = p
set_proto-IsCanonical p (of_str h) = p
set_proto-IsCanonical p (of_array h) = of_custom (of_array h)
set_proto-IsCanonical p (of_object q h) = of_custom (of_object q h)

-- An assignment keeps an object canonical, whatever its key.
assign-IsCanonical :
    {k : Text} {v : Value} {proto : Proto} {fs : Fields}
    → IsWellFormed k
    → IsCanonical v
    → has_own k fs ≡ false
    → ProtoIsCanonical proto
    → HasCanonical fs
    → ProtoIsCanonical (assign k v proto fs).0 × HasCanonical (assign k v proto fs).1
unfolding assign
assign-IsCanonical {k} {proto} wk cv h p c = elim (Bool-cases (same k proto_key)) [
  | inl e ↦ elim (Bool-cases (has_setter proto)) [
    | inl s ↦ rw (e, s) (set_proto-IsCanonical p cv, c)
    | inr s ↦ rw (e, s) (p, snoc-HasCanonical wk cv h c)
  ]
  | inr e ↦ rw e (p, snoc-HasCanonical wk cv h c)
]

starts-pos : (c : ℕ) (ts : Text) → starts c ts ≡ true → suc (length (tail ts)) ≡ length ts
starts-pos c [] h = cc
starts-pos c (d ∷ ts) h = refl

-- White space, a unit that was seen, and white space again: the rest is shorter.
length-skip :
    (c : ℕ) (ts : Text)
    → starts c (whitespace ts) ≡ true
    → length (whitespace (tail (whitespace ts))) < length ts
length-skip c ts h = omega (
  arith,
  starts-pos c (whitespace ts) h,
  length-whitespace ts,
  length-whitespace (tail (whitespace ts)),
)

length-skip_tail :
    (c : ℕ) (ts : Text)
    → starts c (whitespace ts) ≡ true
    → length (tail (whitespace ts)) < length ts
length-skip_tail c ts h = omega (arith, starts-pos c (whitespace ts) h, length-whitespace ts)

-- A reader behind white space.
Reads-whitespace {ℓ} :
    {A : Type 0} (P : A → Type ℓ) (ts : Text) {r : Result (A × Text)}
    → Reads P (whitespace ts) r
    → Reads P ts r
Reads-whitespace P ts h = Ensures-weaken h (λ _ k. (k.0, omega (arith, k.1, length-whitespace ts)))

-- The text behind an opening bracket.
length-inside : (c : ℕ) (ts : Text) → starts c ts ≡ true → length (whitespace (tail ts)) < length ts
length-inside c ts h = omega (arith, starts-pos c ts h, length-whitespace (tail ts))

length-empty :
    (c d : ℕ) (ts : Text)
    → starts c ts ≡ true
    → starts d (whitespace (tail ts)) ≡ true
    → length (tail (whitespace (tail ts))) < length ts
length-empty c d ts h k = omega (arith, length-inside c ts h, starts-pos d (whitespace (tail ts)) k)

constant-Reads :
    (e : ℕ) (es ts : Text) (v : Value) → IsCanonical v → Reads IsCanonical ts (word (e ∷ es) v ts)
constant-Reads e es ts v c =
    Ensures-weaken (word-Reads e es ts v) (λ _ k. (subst IsCanonical k.0 c, k.1))

-- One induction on the fuel, which stays above twice the length of the source.
mutual
  unfolding value

  value-Reads : (f : ℕ) (ts : Text) → 2 * length ts < f → Reads IsCanonical ts (value f ts)
  value-Reads zero ts h = absurd (omega arith)
  value-Reads (suc f) ts h =
      let source = whitespace ts in
      let inside = whitespace (tail source) in
      Reads-whitespace IsCanonical ts (
        Ensures-if (starts quote source)
          (λ _. Ensures-bind (string-Reads source) λ _ k. returned (of_str k.0, k.1))
          λ _.
            Ensures-if (starts b'{' source)
              (λ o.
                Ensures-if (starts b'}' inside)
                  (λ e. returned (of_object of_plain no_fields, length-empty b'{' b'}' source o e))
                  (λ _.
                    let l = length-inside b'{' source o in
                    Ensures-weaken
                      (members-Reads f inside of_plain no_fields
                        (omega (arith, length-whitespace ts)))
                      (λ _ k. (k.0, omega (arith, k.1)))))
              λ _.
                Ensures-if (starts b'[' source)
                  (λ o.
                    Ensures-if (starts b']' inside)
                      (λ e. returned (of_array no_items, length-empty b'[' b']' source o e))
                      (λ _.
                        let l = length-inside b'[' source o in
                        Ensures-bind (items-Reads f inside (omega (arith, length-whitespace ts)))
                          λ _ k. returned (of_array k.0, omega (arith, k.1))))
                  λ _.
                    Ensures-if (starts b't' source)
                      (λ _. constant-Reads b't' (lit "rue") source (bool true) of_bool)
                      λ _.
                        Ensures-if (starts b'f' source)
                          (λ _. constant-Reads b'f' (lit "alse") source (bool false) of_bool)
                          λ _.
                            Ensures-if (starts b'n' source)
                              (λ _. constant-Reads b'n' (lit "ull") source null of_null)
                              λ _.
                                Ensures-bind (number-Reads source)
                                  λ _ k. returned (of_num k.0, k.1))

  items-Reads : (f : ℕ) (ts : Text) → suc (2 * length ts) < f → Reads AreCanonical ts (items f ts)
  items-Reads zero ts h = absurd (omega arith)
  items-Reads (suc f) ts h = Ensures-bind (value-Reads f ts (omega arith)) λ (v, rest) k.
      Ensures-if (starts b']' (whitespace rest))
        (λ e. returned (item k.0 no_items, omega (arith, k.1, length-skip_tail b']' rest e)))
        λ _.
          Ensures-if (starts b',' (whitespace rest))
            (λ e.
              let l = length-skip b',' rest e in
              Ensures-bind
                (items-Reads f (whitespace (tail (whitespace rest))) (omega (arith, k.1)))
                λ _ j. returned (item k.0 j.0, omega (arith, k.1, j.1)))
            (λ _. thrown)

  members-Reads :
      (f : ℕ) {proto : Proto} {fs : Fields} (ts : Text)
      → ProtoIsCanonical proto
      → HasCanonical fs
      → suc (2 * length ts) < f
      → Reads IsCanonical ts (members f proto fs ts)
  members-Reads zero ts p c h = absurd (omega arith)
  members-Reads (suc f) {proto} {fs} ts p c h = Ensures-bind (string-Reads ts) λ (key, rest) k.
      Ensures-if (has_own key fs) (λ _. thrown)
        λ fresh.
          Ensures-if (starts b':' (whitespace rest))
            (λ e.
              let inside = whitespace (tail (whitespace rest)) in
              let l = length-skip b':' rest e in
              Ensures-bind (value-Reads f inside (omega (arith, k.1))) λ (v, left) j.
                let (p', c') = assign-IsCanonical k.0 j.0 fresh p c in
                Ensures-if (starts b'}' (whitespace left))
                  (λ e.
                    returned
                      (of_object p' c', omega (arith, k.1, j.1, length-skip_tail b'}' left e)))
                  λ _.
                    Ensures-if (starts b',' (whitespace left))
                      (λ e.
                        let m = length-skip b',' left e in
                        Ensures-weaken
                          (members-Reads f (whitespace (tail (whitespace left))) p' c'
                            (omega (arith, k.1, j.1)))
                          (λ _ i. (i.0, omega (arith, i.1, j.1, k.1))))
                      (λ _. thrown))
            (λ _. thrown)

finish-Ensures :
    (v : Value) (rest : Text)
    → IsCanonical v
    → Ensures IsCanonical (elim (whitespace rest) [ [] ↦ ok v | _ ↦ failed ])
finish-Ensures v rest c = finish (whitespace rest)
  where
    finish : (left : Text) → Ensures IsCanonical (elim left [ [] ↦ ok v | _ ↦ failed ])
    finish [] = returned c
    finish (_ ∷ _) = thrown

parse-Ensures : (source : Text) → Ensures IsCanonical (parse_canonical_json source)
unfolding parse_canonical_json
parse-Ensures source =
    Ensures-bind (value-Reads (2 * length source + 1) source (omega arith))
      λ (v, rest) k. finish-Ensures v rest k.0

-- For every source the parser returns a value or throws: its fuel is never used up.
pub parse_canonical_json_total : (source : Text) → parse_canonical_json source ≢ out_of_fuel
parse_canonical_json_total source = Ensures-ne_out_of_fuel (parse-Ensures source)

-- In a value that the parser returns, each string and key is well-formed UTF-16, each number is an
-- integer of magnitude below 2 ^ 53, and the own keys of each object are distinct.
pub parse_canonical_json-IsCanonical :
    (source : Text) (v : Value) → parse_canonical_json source ≡ ok v → IsCanonical v
parse_canonical_json-IsCanonical source v e = Ensures-ok (parse-Ensures source) e
