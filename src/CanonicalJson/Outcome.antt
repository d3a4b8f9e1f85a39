-- ===== src/CanonicalJson/Outcome.antt =====
-- Postconditions on the readers of web/features/player/runtime/canonical-json.ts.
use retrom.Prelude.{◌<◌, ◌≡◌, ◌≢◌, refl, subst, Bool, true, false, if◌then◌else◌, length}
use retrom.Text.{Text}
use retrom.CanonicalJson.Scan.{Result, ok, failed, out_of_fuel, ◌>>=◌}

-- The run kept within its fuel, and what it returned has the property.
pub data Ensures {ℓ κ} {A : Type ℓ} (P : A → Type κ) : Result A → Type (ℓ ⊔ κ) where
  returned : {a : A} → P a → Ensures P (ok a)
  thrown : Ensures P failed

-- What a reader returns has the property, and the rest is shorter than the source.
abbrev pub Reads {ℓ} : {A : Type 0} → (A → Type ℓ) → Text → Result (A × Text) → Type ℓ
Reads P ts = Ensures (λ r. P r.0 × (length r.1 < length ts))

module _ {ℓ κ} {A : Type ℓ} {P : A → Type κ} where
  pub Ensures-ok : {r : Result A} {a : A} → Ensures P r → r ≡ ok a → P a
  Ensures-ok (returned h) e = subst P (cc) h
  Ensures-ok thrown e = cc

  pub Ensures-ne_out_of_fuel : {r : Result A} → Ensures P r → r ≢ out_of_fuel
  Ensures-ne_out_of_fuel (returned h) = cc
  Ensures-ne_out_of_fuel thrown = cc

  pub Ensures-if :
      (b : Bool) {x y : Result A}
      → (b ≡ true → Ensures P x)
      → (b ≡ false → Ensures P y)
      → Ensures P (if b then x else y)
  Ensures-if true hx hy = hx refl
  Ensures-if false hx hy = hy refl

  pub Ensures-bind {ℓ' κ'} :
      {B : Type ℓ'} {Q : B → Type κ'} {r : Result A} {f : A → Result B}
      → Ensures P r
      → ((a : A) → P a → Ensures Q (f a))
      → Ensures Q (r >>= f)
  Ensures-bind (returned {a} h) k = k a h
  Ensures-bind thrown k = thrown

  pub Ensures-weaken {κ'} :
      {Q : A → Type κ'} {r : Result A} → Ensures P r → ((a : A) → P a → Q a) → Ensures Q r
  Ensures-weaken (returned {a} h) k = returned (k a h)
  Ensures-weaken thrown k = thrown
