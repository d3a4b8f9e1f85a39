-- ===== src/CanonicalJson.antt =====
-- web/features/player/runtime/canonical-json.ts: the strict JSON parser that reads a launch
-- envelope, by recursive descent over the code units of the source.
pub mod Scan
pub mod Strings
pub mod Numbers
pub mod Outcome
pub mod Canonical
pub mod Reading
pub mod Sound
use retrom.Prelude.{
  ℕ, zero, suc, ◌+◌, ◌*◌, ◌≡◌, refl, Bool, true, false, List, [], ◌∷◌, if◌then◌else◌, length, tail,
}
use retrom.Text.{Text, lit}
use retrom.Value.{
  Value, Items, Fields, Proto, null, bool, num, str, array, object, nil, cons, end, plain, has_own,
  assign,
}
use retrom.CanonicalJson.Scan.{
  Result, ok, failed, out_of_fuel, ◌>>=◌, Reader, starts, whitespace, word,
}
use retrom.CanonicalJson.Strings.{quote, string}
use retrom.CanonicalJson.Numbers.{number}

-- What is left of the source is no structural part of it, so each call costs a unit of fuel.
-- `items` and `members` are the loops of `array` and `object`, behind the opening bracket and the
-- white space.
unfoldable mutual
  unfolding string number word whitespace has_own assign

  pub value : ℕ → Reader Value
  value zero ts = out_of_fuel
  value (suc f) ts =
      let source = whitespace ts in
      let text = (do (s, rest) ← string source; ok (str s, rest)) in
      let inside = whitespace (tail source) in
      let fields = members f plain end inside in
      let elements = (do (vs, rest) ← items f inside; ok (array vs, rest)) in
      if starts quote source
      then text
      else if starts b'{' source
      then (if starts b'}' inside then ok (object plain end, tail inside) else fields)
      else if starts b'[' source
      then (if starts b']' inside then ok (array nil, tail inside) else elements)
      else if starts b't' source
      then word (lit "true") (bool true) source
      else if starts b'f' source
      then word (lit "false") (bool false) source
      else if starts b'n' source
      then word (lit "null") null source
      else number source >>= λ (n, rest). ok (num n, rest)

  pub items : ℕ → Reader Items
  items zero ts = out_of_fuel
  items (suc f) ts = value f ts >>= λ (v, rest).
      let left = whitespace rest in
      let later = (do (vs, rest) ← items f (whitespace (tail left)); ok (cons v vs, rest)) in
      if starts b']' left
      then ok (cons v nil, tail left)
      else if starts b',' left
      then later
      else failed

  pub members : ℕ → Proto → Fields → Reader Value
  members zero proto fs ts = out_of_fuel
  members (suc f) proto fs ts = string ts >>= λ (key, rest).
      let colon = whitespace rest in
      let property = (do
        (v, rest) ← value f (whitespace (tail colon))
        let left = whitespace rest
        let next = assign key v proto fs
        let later = members f next.0 next.1 (whitespace (tail left))
        if starts b'}' left
            then ok (object next.0 next.1, tail left)
            else if starts b',' left
            then later
            else failed) in
      if has_own key fs then failed else if starts b':' colon then property else failed

unfoldable pub parse_canonical_json : Text → Result Value
unfolding value
parse_canonical_json source = do
  (v, rest) ← value (2 * length source + 1) source
  elim (whitespace rest) [ [] ↦ ok v | _ ↦ failed ]
