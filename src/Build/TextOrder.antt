-- ===== src/Build/TextOrder.antt =====
-- threadx-sys/build.rs, netx-sys/build.rs: the order of texts.
use mathlib.Core.Path.{subst}
use threadx_rust.Base.{inr, inl, Bool-cases, ◌≡◌, true, false, [], ◌∷◌, arith, refl}
use threadx_rust.Build.Strings.{Text, text_lt, same}

pub text_lt_irrefl : (s : Text) → text_lt s s ≡ false
text_lt_irrefl [] = refl
text_lt_irrefl (c ∷ s) = ground (arith, text_lt_irrefl s)

pub text_lt_trans : (s t u : Text) → text_lt s t ≡ true → text_lt t u ≡ true → text_lt s u ≡ true
text_lt_trans s [] u h g = absurd (ground arith)
text_lt_trans s t [] h g = absurd (ground arith)
text_lt_trans [] (d ∷ t) (e ∷ u) h g = refl
text_lt_trans (c ∷ s) (d ∷ t) (e ∷ u) h g = ground (arith, text_lt_trans s t u)

pub same-eq : (s t : Text) → same s t ≡ true → s ≡ t
same-eq [] [] h = refl
same-eq [] (d ∷ t) h = absurd (ground arith)
same-eq (c ∷ s) [] h = absurd (ground arith)
same-eq (c ∷ s) (d ∷ t) h = ground (arith, same-eq s t)

pub same_refl : (s : Text) → same s s ≡ true
same_refl [] = refl
same_refl (c ∷ s) = ground (arith, same_refl s)

pub text_lt_total : (s t : Text) → text_lt t s ≡ false → same s t ≡ false → text_lt s t ≡ true
text_lt_total [] [] h g = absurd (ground arith)
text_lt_total [] (d ∷ t) h g = refl
text_lt_total (c ∷ s) [] h g = absurd (ground arith)
text_lt_total (c ∷ s) (d ∷ t) h g = ground (arith, text_lt_total s t)

pub lt_asym : (s t : Text) → text_lt s t ≡ true → text_lt t s ≡ false
lt_asym s t h = elim (Bool-cases (text_lt t s)) [
  | inr e ↦ e
  | inl e ↦ absurd (ground (arith, text_lt_trans s t s h e, text_lt_irrefl s))
]

pub lt_of_lt_of_le : (s t u : Text) → text_lt s t ≡ true → text_lt u t ≡ false → text_lt s u ≡ true
lt_of_lt_of_le s t u h g = elim (Bool-cases (same t u)) [
  | inl e ↦ subst (λ x. text_lt s x ≡ true) (same-eq t u e) h
  | inr e ↦ text_lt_trans s t u h (text_lt_total t u g e)
]

pub le_trans_text : (s t u : Text) → text_lt t s ≡ false → text_lt u t ≡ false → text_lt u s ≡ false
le_trans_text s t u h g = elim (Bool-cases (text_lt u s)) [
  | inr e ↦ e
  | inl e ↦ absurd (ground (arith, lt_of_lt_of_le u s t e h))
]
