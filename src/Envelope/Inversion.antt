-- ===== src/Envelope/Inversion.antt =====
-- What a check of envelope.ts on a property says of the property.
use retrom.Prelude.{◌≡◌, refl, Bool, true, List, Option, none, some, ℤ}
use retrom.Text.{Text}
use retrom.Value.{Value, Items, null, bool, num, str, array, object, items}
use retrom.Envelope.Checks.{on_text, on_number, on_array, on_record}

pub on_text_sound :
    (p : Text → Bool) (o : Option Value)
    → on_text p o ≡ true
    → (s : Text) × (o ≡ some (str s)) × (p s ≡ true)
on_text_sound p (some (str s)) h = (s, refl, h)
on_text_sound p (some null) h = cc
on_text_sound p (some (bool b)) h = cc
on_text_sound p (some (num n)) h = cc
on_text_sound p (some (array vs)) h = cc
on_text_sound p (some (object proto fs)) h = cc
on_text_sound p none h = cc

pub on_number_sound :
    (p : ℤ → Bool) (o : Option Value)
    → on_number p o ≡ true
    → (n : ℤ) × (o ≡ some (num n)) × (p n ≡ true)
on_number_sound p (some (num n)) h = (n, refl, h)
on_number_sound p (some null) h = cc
on_number_sound p (some (bool b)) h = cc
on_number_sound p (some (str s)) h = cc
on_number_sound p (some (array vs)) h = cc
on_number_sound p (some (object proto fs)) h = cc
on_number_sound p none h = cc

pub on_array_sound :
    (p : List Value → Bool) (o : Option Value)
    → on_array p o ≡ true
    → (vs : Items) × (o ≡ some (array vs)) × (p (items vs) ≡ true)
on_array_sound p (some (array vs)) h = (vs, refl, h)
on_array_sound p (some null) h = cc
on_array_sound p (some (bool b)) h = cc
on_array_sound p (some (num n)) h = cc
on_array_sound p (some (str s)) h = cc
on_array_sound p (some (object proto fs)) h = cc
on_array_sound p none h = cc

pub on_record_sound :
    (p : Value → Bool) (o : Option Value)
    → on_record p o ≡ true
    → (v : Value) × (o ≡ some v) × (p v ≡ true)
on_record_sound p (some (object proto fs)) h = (object proto fs, refl, h)
on_record_sound p (some null) h = cc
on_record_sound p (some (bool b)) h = cc
on_record_sound p (some (num n)) h = cc
on_record_sound p (some (str s)) h = cc
on_record_sound p (some (array vs)) h = cc
on_record_sound p none h = cc
