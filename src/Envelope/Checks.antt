-- ===== src/Envelope/Checks.antt =====
-- web/features/player/runtime/envelope.ts: the checks on single values. A property that is read
-- and is not there is `none`, the `undefined` of the program.
use retrom.Prelude.{
  ℕ, Bool, true, false, ◌&&◌, List, [], ◌∷◌, ◌++◌, Option, none, some, ltb, leb, ◌==◌, length, map,
  ℤ, pos, negsuc, magnitude, String,
}
use retrom.Text.{Text, lit}
use retrom.Value.{
  Value, Items, Fields, Proto, null, bool, num, str, array, object, nil, cons, end, custom, items,
  keys, own,
}
use retrom.CanonicalJson.Numbers.{safe_bound}
use retrom.Decimal.{decimal_ℤ}
use retrom.Regex.{test}
use retrom.Envelope.Texts.{sort, all_same, well_formed, code_points, distinct, ascending}
use retrom.Envelope.Patterns.{digest, identity, core_identity, token, uuid_pattern}

-- The own properties; what is no object of its own fields has none that are read.
abbrev pub own_fields : Value → Fields
own_fields (object proto fs) = fs
own_fields null = end
own_fields (bool b) = end
own_fields (num n) = end
own_fields (str s) = end
own_fields (array vs) = end

-- `record`.
unfoldable pub is_record : Value → Bool
is_record (object proto fs) = true
is_record null = false
is_record (bool b) = false
is_record (num n) = false
is_record (str s) = false
is_record (array vs) = false

-- `value[key]`, along the prototypes. An array there has none of the keys that are read.
unfoldable mutual
  pub get : Text → Value → Option Value
  get k (object proto fs) = elim (own k fs) [ none ↦ get_inherited k proto | some v ↦ some v ]
  get k _ = none

  pub get_inherited : Text → Proto → Option Value
  get_inherited k (custom v) = get k v
  get_inherited k _ = none

abbrev pub prop : String → Value → Option Value
prop k v = get (lit k) v

unfoldable pub own_keys : Value → List Text
own_keys v = keys (own_fields v)

-- `exactKeys`.
unfoldable pub exact_keys : Value → List String → Bool
unfolding sort all_same own_keys
exact_keys v ks = all_same (sort (own_keys v)) (map lit ks)

-- A test on a string; what is no string fails.
abbrev pub on_text : (Text → Bool) → Option Value → Bool
on_text p (some (str s)) = p s
on_text p (some null) = false
on_text p (some (bool b)) = false
on_text p (some (num n)) = false
on_text p (some (array vs)) = false
on_text p (some (object proto fs)) = false
on_text p none = false

abbrev pub on_number : (ℤ → Bool) → Option Value → Bool
on_number p (some (num n)) = p n
on_number p (some (str s)) = false
on_number p (some null) = false
on_number p (some (bool b)) = false
on_number p (some (array vs)) = false
on_number p (some (object proto fs)) = false
on_number p none = false

abbrev pub on_array : (List Value → Bool) → Option Value → Bool
on_array p (some (array vs)) = p (items vs)
on_array p (some (str s)) = false
on_array p (some null) = false
on_array p (some (bool b)) = false
on_array p (some (num n)) = false
on_array p (some (object proto fs)) = false
on_array p none = false

abbrev pub on_record : (Value → Bool) → Option Value → Bool
on_record p (some (object proto fs)) = p (object proto fs)
on_record p (some (str s)) = false
on_record p (some null) = false
on_record p (some (bool b)) = false
on_record p (some (num n)) = false
on_record p (some (array vs)) = false
on_record p none = false

abbrev pub is_safe_integer : ℤ → Bool
is_safe_integer n = ltb (magnitude n) safe_bound

abbrev pub is_positive : ℤ → Bool
is_positive (pos n) = ltb 0 n
is_positive (negsuc n) = false

abbrev pub is_nonnegative : ℤ → Bool
is_nonnegative (pos n) = true
is_nonnegative (negsuc n) = false

abbrev pub valid_identity : Option Value → Bool
valid_identity v = on_text (test identity) v

abbrev pub valid_core_identity : Option Value → Bool
valid_core_identity v = on_text (λ s. leb (length s) 64 && test core_identity s) v

abbrev pub valid_token : Option Value → Bool
valid_token v = on_text (test token) v

abbrev pub valid_digest : Option Value → Bool
valid_digest v = on_text (test digest) v

abbrev pub uuid : Option Value → Bool
uuid v = on_text (test uuid_pattern) v

abbrev pub positive_integer : Option Value → Bool
positive_integer v = on_number (λ n. is_safe_integer n && is_positive n) v

abbrev pub non_negative_integer : Option Value → Bool
non_negative_integer v = on_number (λ n. is_safe_integer n && is_nonnegative n) v

abbrev pub bounded : ℕ → ℕ → Option Value → Bool
bounded minimum maximum v =
    on_text (λ s. well_formed s && leb minimum (code_points s) && leb (code_points s) maximum) v

abbrev pub strings : List Value → Option (List Text)
strings [] = some []
strings (str s ∷ vs) = elim (strings vs) [ none ↦ none | some ss ↦ some (s ∷ ss) ]
strings (_ ∷ vs) = none

-- `sortedUnique`.
unfoldable pub sorted_unique : List Value → Bool
unfolding distinct ascending
sorted_unique vs = elim (strings vs) [
  | none ↦ false
  | some ss ↦ length (distinct ss) == length ss && ascending ss
]

-- `String(value)`. An object has the text of a plain one: no text that is asked for is that one,
-- and an object whose conversion throws is rejected all the same.
unfoldable mutual
  pub to_text : Value → Text
  to_text null = lit "null"
  to_text (bool true) = lit "true"
  to_text (bool false) = lit "false"
  to_text (num n) = decimal_ℤ n
  to_text (str s) = s
  to_text (array vs) = join_items vs
  to_text (object proto fs) = lit "[object Object]"

  -- The items of an array, with commas; null is the empty text.
  pub join_items : Items → Text
  join_items nil = []
  join_items (cons null nil) = []
  join_items (cons v nil) = to_text v
  join_items (cons null (cons w vs)) = lit "," ++ join_items (cons w vs)
  join_items (cons v (cons w vs)) = to_text v ++ lit "," ++ join_items (cons w vs)

abbrev pub string_of : Option Value → Text
string_of none = lit "undefined"
string_of (some v) = to_text v
