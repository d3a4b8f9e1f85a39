-- ===== src/Text/Order.antt =====
-- The order of strings by code units is strict and total.
use retrom.Prelude.{◌≡◌, refl, true, false, [], ◌∷◌, arith}
use retrom.Text.{Text, precedes}

pub precedes_irrefl : (s : Text) → precedes s s ≡ false
unfolding precedes
precedes_irrefl [] = refl
precedes_irrefl (a ∷ s) = ground (arith, precedes_irrefl s)

pub precedes_trans :
    (s t u : Text) → precedes s t ≡ true → precedes t u ≡ true → precedes s u ≡ true
unfolding precedes
precedes_trans [] (b ∷ t) (c ∷ u) h k = refl
precedes_trans (a ∷ s) (b ∷ t) (c ∷ u) h k = ground (arith, precedes_trans s t u)
precedes_trans [] [] u h k = cc
precedes_trans (a ∷ s) [] u h k = cc
precedes_trans s (b ∷ t) [] h k = cc

pub precedes_total : (s t : Text) → precedes s t ≡ false → precedes t s ≡ false → s ≡ t
unfolding precedes
precedes_total [] [] h k = refl
precedes_total [] (b ∷ t) h k = cc
precedes_total (a ∷ s) [] h k = cc
precedes_total (a ∷ s) (b ∷ t) h k = ground (arith, precedes_total s t)

pub precedes_asym : (s t : Text) → precedes s t ≡ true → precedes t s ≡ false
unfolding precedes
precedes_asym [] (b ∷ t) h = refl
precedes_asym (a ∷ s) (b ∷ t) h = ground (arith, precedes_asym s t)
precedes_asym [] [] h = cc
precedes_asym (a ∷ s) [] h = cc
