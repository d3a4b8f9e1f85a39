-- ===== src/Regex/Laws.antt =====
-- The derivative matcher decides the meaning of an expression.
use retrom.Prelude.{
  ℕ, ◌≡◌, refl, sym, ap, subst, ◌∙◌, ◌↔◌, Bool, true, false, ◌||◌, [], ◌∷◌, ◌++◌, inl, inr,
  Bool-cases, if◌then◌else◌, arith, and-eq-true_iff,
}
use retrom.Text.{Text}
use retrom.Regex.{
  Regex, fail, eps, unit, seq, alt, star, Matches, nothing, one, both, left, right, done, again,
  nullable, join, either, derivative, test,
}

or-eq-true {ℓ} : {P : Type ℓ} (a b : Bool) → (a || b) ≡ true → (a ≡ true → P) → (b ≡ true → P) → P
or-eq-true true b h f g = f refl
or-eq-true false b h f g = g h

nullable_sound : (r : Regex) → nullable r ≡ true → Matches r []
unfolding nullable
nullable_sound fail h = cc
nullable_sound eps h = nothing
nullable_sound (unit p) h = cc
nullable_sound (seq r q) h =
    let (k, l) = (and-eq-true_iff _ _).0 h in both (nullable_sound r k) (nullable_sound q l) refl
nullable_sound (alt r q) h =
    or-eq-true (nullable r) (nullable q) h (λ k. left (nullable_sound r k))
      (λ k. right (nullable_sound q k))
nullable_sound (star r) h = done

nullable_complete : {r : Regex} {u : Text} → Matches r u → u ≡ [] → nullable r ≡ true
unfolding nullable
nullable_complete nothing e = refl
nullable_complete (one h) e = cc
nullable_complete (both {s = []} m n p) e = rw (nullable_complete m refl) (nullable_complete n (cc))
nullable_complete (both {s = c ∷ s} m n p) e = cc
nullable_complete (left m) e = rw (nullable_complete m e)
nullable_complete (right {r} m) e = ground (arith, nullable_complete m e)
nullable_complete done e = refl
nullable_complete (again m n p) e = refl

join_sound : (r q : Regex) {u : Text} → Matches (join r q) u → Matches (seq r q) u
unfolding join
join_sound fail q m = elim m [ ]
join_sound eps q m = both nothing m refl
join_sound (unit p) q m = m
join_sound (seq r s) q m = m
join_sound (alt r s) q m = m
join_sound (star r) q m = m

-- Only the empty text stands before what is left.
after_nothing : {q : Regex} {s t u : Text} → Matches eps s → Matches q t → u ≡ s ++ t → Matches q u
after_nothing {q} nothing m p = subst (Matches q) (sym p) m

join_complete : (r q : Regex) {u : Text} → Matches (seq r q) u → Matches (join r q) u
unfolding join
join_complete fail q (both m n p) = elim m [ ]
join_complete eps q (both m n p) = after_nothing m n p
join_complete (unit p) q m = m
join_complete (seq r s) q m = m
join_complete (alt r s) q m = m
join_complete (star r) q m = m

either_sound : (r q : Regex) {u : Text} → Matches (either r q) u → Matches (alt r q) u
unfolding either
either_sound fail q m = right m
either_sound eps q m = m
either_sound (unit p) q m = m
either_sound (seq r s) q m = m
either_sound (alt r s) q m = m
either_sound (star r) q m = m

either_left : (r q : Regex) {u : Text} → Matches r u → Matches (either r q) u
unfolding either
either_left fail q m = elim m [ ]
either_left eps q m = left m
either_left (unit p) q m = left m
either_left (seq r s) q m = left m
either_left (alt r s) q m = left m
either_left (star r) q m = left m

either_right : (r q : Regex) {u : Text} → Matches q u → Matches (either r q) u
unfolding either
either_right fail q m = m
either_right eps q m = right m
either_right (unit p) q m = right m
either_right (seq r s) q m = right m
either_right (alt r s) q m = right m
either_right (star r) q m = right m

-- A text that a sequence matches, in its two parts.
split :
    {r q : Regex} {u : Text}
    → Matches (seq r q) u
    → (s t : Text) × Matches r s × Matches q t × (u ≡ s ++ t)
split (both {s} {t} m n p) = (s, t, m, n, p)

Alt-elim {ℓ} :
    {P : Type ℓ} {r q : Regex} {u : Text}
    → Matches (alt r q) u
    → (Matches r u → P)
    → (Matches q u → P)
    → P
Alt-elim (left m) f g = f m
Alt-elim (right m) f g = g m

empty_text : {u : Text} → Matches eps u → u ≡ []
empty_text nothing = refl

unit_sound :
    (c : ℕ) (p : ℕ → Bool) {u : Text}
    → Matches (if p c then eps else fail) u
    → Matches (unit p) (c ∷ u)
unit_sound c p {u} m = elim (Bool-cases (p c)) [
  | inl h ↦ rw (empty_text {u = u} (rw h at m)) (one h)
  | inr h ↦ elim (rw h at m) [ ]
]

unit_complete :
    (c d : ℕ) (p : ℕ → Bool) {s : Text}
    → p d ≡ true
    → d ∷ [] ≡ c ∷ s
    → Matches (if p c then eps else fail) s
unit_complete c d p {s} h e =
    let same : d ≡ c = cc in let rest : [] ≡ s = cc in rw (← rest, rw same at h) nothing

-- Behind the first unit of a sequence.
abbrev seq_derivative : ℕ → Regex → Regex → Regex
seq_derivative c r q =
    if nullable r
    then either (join (derivative c r) q) (derivative c q)
    else join (derivative c r) q

seq_left :
    (c : ℕ) (r q : Regex) {s t u : Text}
    → Matches (derivative c r) s
    → Matches q t
    → u ≡ s ++ t
    → Matches (seq_derivative c r q) u
seq_left c r q m n p =
    let joined = join_complete (derivative c r) q (both m n p) in
    elim (Bool-cases (nullable r)) [
      | inl h ↦ rw h (either_left (join (derivative c r) q) (derivative c q) joined)
      | inr h ↦ rw h joined
    ]

seq_right :
    (c : ℕ) (r q : Regex) {u : Text}
    → Matches r []
    → Matches (derivative c q) u
    → Matches (seq_derivative c r q) u
seq_right c r q m n =
    rw (nullable_complete m refl) (either_right (join (derivative c r) q) (derivative c q) n)

seq_sound :
    (c : ℕ) (r q : Regex) {u : Text}
    → Matches (seq_derivative c r q) u
    → ((v : Text) → Matches (derivative c r) v → Matches r (c ∷ v))
    → ((v : Text) → Matches (derivative c q) v → Matches q (c ∷ v))
    → Matches (seq r q) (c ∷ u)
seq_sound c r q {u} m f g = elim (Bool-cases (nullable r)) [
  | inl h ↦
      Alt-elim (either_sound (join (derivative c r) q) (derivative c q) (rw h at m)) first
        (λ k. both (nullable_sound r h) (g u k) refl)
  | inr h ↦ first (rw h at m)
]
  where
    first : Matches (join (derivative c r) q) u → Matches (seq r q) (c ∷ u)
    first k =
        let (s, t, d, n, p) = split (join_sound (derivative c r) q k) in
        both (f s d) n (ap (λ u. c ∷ u) p)

derivative_sound : (c : ℕ) (r : Regex) {u : Text} → Matches (derivative c r) u → Matches r (c ∷ u)
unfolding derivative
derivative_sound c fail m = elim m [ ]
derivative_sound c eps m = elim m [ ]
derivative_sound c (unit p) m = unit_sound c p m
derivative_sound c (seq r q) m =
    seq_sound c r q m (λ v k. derivative_sound c r k) (λ v k. derivative_sound c q k)
derivative_sound c (alt r q) m =
    Alt-elim (either_sound (derivative c r) (derivative c q) m) (λ k. left (derivative_sound c r k))
      (λ k. right (derivative_sound c q k))
derivative_sound c (star r) m =
    let (s, t, d, n, p) = split (join_sound (derivative c r) (star r) m) in
    again (derivative_sound c r d) n (ap (λ u. c ∷ u) p)

derivative_complete :
    (c : ℕ) {r : Regex} {u s : Text} → Matches r u → u ≡ c ∷ s → Matches (derivative c r) s
unfolding derivative
derivative_complete c nothing e = cc
derivative_complete c (one {p} {c = d} h) e = unit_complete c d p h e
derivative_complete c (both {r} {q} {s = []} m n p) e =
    seq_right c r q m (derivative_complete c n (sym p ∙ e))
derivative_complete c (both {r} {q} {s = d ∷ s} m n p) e =
    seq_left c r q (derivative_complete c {s = s} m (cc)) n (cc)
derivative_complete c (left {r} {q} m) e =
    either_left (derivative c r) (derivative c q) (derivative_complete c m e)
derivative_complete c (right {r} {q} m) e =
    either_right (derivative c r) (derivative c q) (derivative_complete c m e)
derivative_complete c done e = cc
derivative_complete c (again {r} {s = []} m n p) e = derivative_complete c n (sym p ∙ e)
derivative_complete c (again {r} {s = d ∷ s} m n p) e =
    join_complete (derivative c r) (star r) (both (derivative_complete c {s = s} m (cc)) n (cc))

test_sound : (r : Regex) (s : Text) → test r s ≡ true → Matches r s
unfolding test
test_sound r [] h = nullable_sound r h
test_sound r (c ∷ s) h = derivative_sound c r (test_sound (derivative c r) s h)

test_complete : (r : Regex) (s : Text) → Matches r s → test r s ≡ true
unfolding test
test_complete r [] m = nullable_complete m refl
test_complete r (c ∷ s) m = test_complete (derivative c r) s (derivative_complete c m refl)

-- The matcher accepts exactly the texts that the expression stands for.
pub test_iff : (r : Regex) (s : Text) → (test r s ≡ true) ↔ Matches r s
test_iff r s = (test_sound r s, test_complete r s)
