-- ===== src/Provider/Rules.antt =====
-- Postconditions of the asynchronous functions of provider-dispatcher.ts, for both outcomes.
use retrom.Prelude.{◌≡◌, refl, Bool, true, false, Option, none, some}
use retrom.Provider.Effects.{
  Error, Log, Outcome, returned, thrown, Run, foreign, continue, handle, ◌>>=◌, ◌>>◌,
}
use retrom.Provider.Fetching.{await, require, called}

abbrev pub Ensures :
    {A : Type 0} → (A → Log → Type 0) → (Error → Log → Type 0) → Outcome A × Log → Type 0
Ensures P Q (returned a, log) = P a log
Ensures P Q (thrown e, log) = Q e log

module _ {A : Type 0} (P : A → Log → Type 0) (Q : Error → Log → Type 0) where
  pub continue-Ensures :
      {B : Type 0} (R : B → Log → Type 0) (f : A → Run B) (r : Outcome A × Log)
      → Ensures P Q r
      → ((a : A) (log : Log) → P a log → Ensures R Q (f a log))
      → Ensures R Q (continue f r)
  continue-Ensures R f (returned a, log) p k = k a log p
  continue-Ensures R f (thrown e, log) q k = q

  pub handle-Ensures :
      (S : Error → Log → Type 0) (h : Error → Run A) (r : Outcome A × Log)
      → Ensures P Q r
      → ((e : Error) (log : Log) → Q e log → Ensures P S (h e log))
      → Ensures P S (handle h r)
  handle-Ensures S h (returned a, log) p k = p
  handle-Ensures S h (thrown e, log) q k = k e log q

  pub require-Ensures :
      (b : Bool) (e : Error) (k : Run A) (log : Log)
      → (b ≡ false → Q e log)
      → (b ≡ true → Ensures P Q (k log))
      → Ensures P Q ((require b e >> k) log)
  require-Ensures true e k log q p = p refl
  require-Ensures false e k log q p = q refl

  pub await-Ensures :
      {B : Type 0} (o : Option B) (f : B → Run A) (log : Log)
      → Q foreign log
      → ((b : B) → o ≡ some b → Ensures P Q (f b log))
      → Ensures P Q ((await o >>= f) log)
  await-Ensures none f log q k = q
  await-Ensures (some b) f log q k = k b refl

  pub weaken-Ensures :
      (S : Error → Log → Type 0) (r : Outcome A × Log)
      → Ensures P Q r
      → ((e : Error) (log : Log) → Q e log → S e log)
      → Ensures P S r
  weaken-Ensures S (returned a, log) p k = p
  weaken-Ensures S (thrown e, log) q k = k e log q

  pub called-Ensures :
      {B : Type 0} (o : Outcome B) (f : B → Run A) (log : Log)
      → ((e : Error) → Q e log)
      → ((b : B) → o ≡ returned b → Ensures P Q (f b log))
      → Ensures P Q ((called o >>= f) log)
  called-Ensures (thrown e) f log q k = q e
  called-Ensures (returned b) f log q k = k b refl
