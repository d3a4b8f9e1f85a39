-- ===== src/Drafts/Identity.antt =====
-- web/features/player/draft-upload.ts: the comparison of two identities. They are what
-- `JSON.parse` or a structured clone yields, so the keys of an object are its own ones.
use retrom.Prelude.{Bool, true, false, ◌&&◌, Option, none, some, length, ◌==◌}
use retrom.Value.{
  Value, Items, Fields, null, bool, num, str, array, object, nil, cons, end, field, keys, own,
}
use retrom.Provider.Contract.{strict_same}

-- What a value that is there, or that is no array or no object, is compared with.
abbrev pub on_items : (Items → Bool) → Value → Bool
on_items p (array ws) = p ws
on_items p null = false
on_items p (bool b) = false
on_items p (num n) = false
on_items p (str s) = false
on_items p (object proto ws) = false

abbrev pub on_fields : (Fields → Bool) → Value → Bool
on_fields p (object proto ws) = p ws
on_fields p null = false
on_fields p (bool b) = false
on_fields p (num n) = false
on_fields p (str s) = false
on_fields p (array ws) = false

abbrev pub on_some : (Value → Bool) → Option Value → Bool
on_some p none = false
on_some p (some w) = p w

-- `right.length` and `right[index]`, in step with the items of the left array.
abbrev pub on_nil : Items → Bool
on_nil nil = true
on_nil (cons w ws) = false

abbrev pub on_cons : (Value → Bool) → (Items → Bool) → Items → Bool
on_cons p q nil = false
on_cons p q (cons w ws) = p w && q ws

-- `sameIdentity`.
unfoldable mutual
  pub same_identity : Value → Value → Bool
  same_identity null w = strict_same (some null) (some w)
  same_identity (bool b) w = strict_same (some (bool b)) (some w)
  same_identity (num n) w = strict_same (some (num n)) (some w)
  same_identity (str s) w = strict_same (some (str s)) (some w)
  same_identity (array vs) w = on_items (same_items vs) w
  same_identity (object proto fs) w =
      on_fields (λ ws. (length (keys fs) == length (keys ws)) && same_fields fs ws) w

  pub same_items : Items → Items → Bool
  same_items nil ws = on_nil ws
  same_items (cons v vs) ws = on_cons (same_identity v) (same_items vs) ws

  -- `keys.every`.
  pub same_fields : Fields → Fields → Bool
  same_fields end ws = true
  same_fields (field k v fs) ws = on_some (same_identity v) (own k ws) && same_fields fs ws
