-- ===== src/Value.antt =====
-- The JavaScript values that the client reads from JSON text: what `JSON.parse` can return, and
-- the prototypes that an assignment to `__proto__` can give an object.
use retrom.Prelude.{
  ◌≡◌, Bool, true, false, ◌||◌, List, [], ◌∷◌, Option, none, some, ℤ, arith, if◌then◌else◌,
}
use retrom.Text.{Text, lit, same}

-- `Items` and `Fields` are the lists inside an array and an object; an object's own properties
-- stand in the order in which they were made. A number is an integer: no other is accepted.
mutual
  pub data Value : Type 0 where
    null : Value
    bool : Bool → Value
    num : ℤ → Value
    str : Text → Value
    array : Items → Value
    object : Proto → Fields → Value

  pub data Items : Type 0 where
    nil : Items
    cons : Value → Items → Items

  pub data Fields : Type 0 where
    end : Fields
    field : Text → Value → Fields → Fields

  -- `plain` is Object.prototype and `absent` is null.
  pub data Proto : Type 0 where
    plain absent : Proto
    custom : Value → Proto

abbrev pub items : Items → List Value
items nil = []
items (cons v vs) = v ∷ items vs

abbrev pub fields : Fields → List (Text × Value)
fields end = []
fields (field k v fs) = (k, v) ∷ fields fs

-- `Object.keys`.
abbrev pub keys : Fields → List Text
keys end = []
keys (field k v fs) = k ∷ keys fs

-- `Object.hasOwn`.
unfoldable pub has_own : Text → Fields → Bool
has_own k end = false
has_own k (field j v fs) = same j k || has_own k fs

-- A new own property stands last.
abbrev pub snoc : Fields → Text → Value → Fields
snoc end j w = field j w end
snoc (field k v fs) j w = field k v (snoc fs j w)

abbrev pub own : Text → Fields → Option Value
own k end = none
own k (field j v fs) = if same j k then some v else own k fs

abbrev pub proto_key : Text
proto_key = lit "__proto__"

-- Whether an assignment to `__proto__` meets the setter of Object.prototype: the chain reaches it
-- before an own property of that name. Arrays inherit from it.
unfoldable mutual
  pub has_setter : Proto → Bool
  has_setter plain = true
  has_setter absent = false
  has_setter (custom v) = value_has_setter v

  pub value_has_setter : Value → Bool
  value_has_setter (object proto fs) = if has_own proto_key fs then false else has_setter proto
  value_has_setter _ = true

-- The setter: an object or an array becomes the prototype, null removes it, and the rest is
-- ignored.
abbrev pub set_proto : Proto → Value → Proto
set_proto proto null = absent
set_proto proto (array vs) = custom (array vs)
set_proto proto (object p fs) = custom (object p fs)
set_proto proto (bool b) = proto
set_proto proto (num n) = proto
set_proto proto (str s) = proto

-- `object[key] = value` for a key that is no own property.
unfoldable pub assign : Text → Value → Proto → Fields → Proto × Fields
unfolding has_setter
assign key v proto fs =
    if same key proto_key
    then (if has_setter proto then (set_proto proto v, fs) else (proto, snoc fs key v))
    else (proto, snoc fs key v)

pub has_own-snoc :
    (k j : Text) (v : Value) (fs : Fields) → has_own k (snoc fs j v) ≡ (has_own k fs || same j k)
unfolding has_own
has_own-snoc k j v end = ground arith
has_own-snoc k j v (field i w fs) = ground (arith, has_own-snoc k j v fs)
