-- ===== src/CanonicalJson/Canonical.antt =====
-- The values that the parser of canonical-json.ts may return.
use retrom.Prelude.{◌<◌, ◌≡◌, Bool, false, ℤ, magnitude}
use retrom.Text.{Text, IsWellFormed}
use retrom.Value.{
  Value, null, bool, num, str, array, object, Items, nil, cons, Fields, end, field, has_own, Proto,
  plain, absent, custom,
}
use retrom.CanonicalJson.Numbers.{safe_bound}

-- Strings and keys are well formed, numbers are safe integers, and an object's keys are distinct.
mutual
  pub data IsCanonical : Value → Type 0 where
    of_null : IsCanonical null
    of_bool : {b : Bool} → IsCanonical (bool b)
    of_num : {n : ℤ} → magnitude n < safe_bound → IsCanonical (num n)
    of_str : {s : Text} → IsWellFormed s → IsCanonical (str s)
    of_array : {vs : Items} → AreCanonical vs → IsCanonical (array vs)
    of_object :
        {proto : Proto} {fs : Fields}
        → ProtoIsCanonical proto
        → HasCanonical fs
        → IsCanonical (object proto fs)

  pub data AreCanonical : Items → Type 0 where
    no_items : AreCanonical nil
    item : {v : Value} {vs : Items} → IsCanonical v → AreCanonical vs → AreCanonical (cons v vs)

  pub data HasCanonical : Fields → Type 0 where
    no_fields : HasCanonical end
    property :
        {k : Text} {v : Value} {fs : Fields}
        → IsWellFormed k
        → IsCanonical v
        → has_own k fs ≡ false
        → HasCanonical fs
        → HasCanonical (field k v fs)

  pub data ProtoIsCanonical : Proto → Type 0 where
    of_plain : ProtoIsCanonical plain
    of_absent : ProtoIsCanonical absent
    of_custom : {v : Value} → IsCanonical v → ProtoIsCanonical (custom v)
