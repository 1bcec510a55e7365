-- ===== src/Build/Sorted.antt =====
-- threadx-sys/build.rs, netx-sys/build.rs: what sort and dedup make of a list of texts.
use threadx_rust.Build.TextOrder.{
  lt_asym, same_refl, text_lt_total, le_trans_text, lt_of_lt_of_le, same-eq, text_lt_irrefl,
}
use mathlib.Core.Path.{sym, subst}
use threadx_rust.Base.{
  ◌∙◌, inr, inl, Bool-cases, ◌≡◌, Bool, true, false, not, ◌&&◌, ◌||◌, List, [], ◌∷◌, arith, refl,
}
use threadx_rust.Build.Strings.{dedup, dedup_behind, insert_sorted, sort, Text, text_lt, same}

-- Membership, and the two senses of being in order.
abbrev pub has : Text → List Text → Bool
has x [] = false
has x (y ∷ ys) = same x y || has x ys

abbrev all_above : Text → List Text → Bool
all_above x [] = true
all_above x (y ∷ ys) = text_lt x y && all_above x ys

abbrev none_below : Text → List Text → Bool
none_below x [] = true
none_below x (y ∷ ys) = not (text_lt y x) && none_below x ys

abbrev pub increasing : List Text → Bool
increasing [] = true
increasing (x ∷ xs) = all_above x xs && increasing xs

abbrev sorted : List Text → Bool
sorted [] = true
sorted (x ∷ xs) = none_below x xs && sorted xs

none_below-le :
    (x y : Text) (l : List Text)
    → text_lt y x ≡ false
    → none_below y l ≡ true
    → none_below x l ≡ true
none_below-le x y [] h g = refl
none_below-le x y (z ∷ l) h g = ground (arith, le_trans_text x y z h, none_below-le x y l h)

none_below-insert :
    (x y : Text) (l : List Text)
    → text_lt y x ≡ false
    → none_below x l ≡ true
    → none_below x (insert_sorted y l) ≡ true
none_below-insert x y [] h g = ground arith
none_below-insert x y (z ∷ l) h g = ground (arith, none_below-insert x y l h)

insert-sorted : (x : Text) (l : List Text) → sorted l ≡ true → sorted (insert_sorted x l) ≡ true
insert-sorted x [] h = refl
insert-sorted x (y ∷ l) h = elim (Bool-cases (text_lt y x)) [
  | inl lt ↦ ground (arith, insert-sorted x l, none_below-insert y x l (lt_asym y x lt))
  | inr ge ↦ ground (arith, none_below-le x y l ge)
]

sort-sorted : (l : List Text) → sorted (sort l) ≡ true
sort-sorted [] = refl
sort-sorted (x ∷ l) = insert-sorted x (sort l) (sort-sorted l)

dedup_behind-above :
    (x y : Text) (l : List Text)
    → text_lt x y ≡ true
    → none_below y l ≡ true
    → sorted l ≡ true
    → all_above x (dedup_behind y l) ≡ true
dedup_behind-above x y [] h g s = refl
dedup_behind-above x y (z ∷ l) h g s =
    ground (arith, lt_of_lt_of_le x y z h, dedup_behind-above x y l h, dedup_behind-above x z l)

dedup_behind-increasing :
    (y : Text) (l : List Text)
    → none_below y l ≡ true
    → sorted l ≡ true
    → (all_above y (dedup_behind y l) && increasing (dedup_behind y l)) ≡ true
dedup_behind-increasing y [] g s = refl
dedup_behind-increasing y (z ∷ l) g s = ground (
  arith,
  text_lt_total y z,
  dedup_behind-above y z l,
  dedup_behind-increasing y l,
  dedup_behind-increasing z l,
)

pub dedup-sort-increasing : (l : List Text) → increasing (dedup (sort l)) ≡ true
dedup-sort-increasing l = dedup_sorted (sort l) (sort-sorted l)
  where
    dedup_sorted : (l : List Text) → sorted l ≡ true → increasing (dedup l) ≡ true
    dedup_sorted [] h = refl
    dedup_sorted (x ∷ l) h = ground (arith, dedup_behind-increasing x l)

has-insert : (x y : Text) (l : List Text) → has x (insert_sorted y l) ≡ (same x y || has x l)
has-insert x y [] = ground arith
has-insert x y (z ∷ l) = ground (arith, has-insert x y l)

has-sort : (x : Text) (l : List Text) → has x (sort l) ≡ has x l
has-sort x [] = refl
has-sort x (y ∷ l) = ground (arith, has-insert x y (sort l), has-sort x l)

has-dedup_behind :
    (x y : Text) (l : List Text) → (same x y || has x (dedup_behind y l)) ≡ (same x y || has x l)
has-dedup_behind x y [] = refl
has-dedup_behind x y (z ∷ l) = elim (Bool-cases (same y z)) [
  | inl e ↦
      ground (arith, has-dedup_behind x y l, subst (λ t. same x t ≡ same x y) (same-eq y z e) refl)
  | inr e ↦ ground (arith, has-dedup_behind x z l)
]

-- Sort and dedup keep the members.
pub has-dedup-sort : (x : Text) (l : List Text) → has x (dedup (sort l)) ≡ has x l
has-dedup-sort x l = has-dedup (sort l) ∙ has-sort x l
  where
    has-dedup : (l : List Text) → has x (dedup l) ≡ has x l
    has-dedup [] = refl
    has-dedup (y ∷ l) = has-dedup_behind x y l

above-has :
    (x y : Text) (l : List Text) → all_above x l ≡ true → has y l ≡ true → text_lt x y ≡ true
above-has x y [] h g = absurd (ground arith)
above-has x y (z ∷ l) h g = elim (Bool-cases (same y z)) [
  | inl e ↦ subst (λ t. text_lt x t ≡ true) (sym (same-eq y z e)) (ground arith)
  | inr e ↦ above-has x y l (ground arith) (ground arith)
]

not-has-above : (x : Text) (l : List Text) → all_above x l ≡ true → has x l ≡ false
not-has-above x l h = elim (Bool-cases (has x l)) [
  | inr e ↦ e
  | inl e ↦ absurd (ground (arith, above-has x x l h e, text_lt_irrefl x))
]

heads_agree :
    (x y : Text) (l m : List Text)
    → all_above x l ≡ true
    → all_above y m ≡ true
    → has x (y ∷ m) ≡ true
    → has y (x ∷ l) ≡ true
    → x ≡ y
heads_agree x y l m h g a b = elim (Bool-cases (same x y)) [
  | inl e ↦ same-eq x y e
  | inr e ↦ elim (Bool-cases (same y x)) [
    | inl e' ↦ sym (same-eq y x e')
    | inr e' ↦
        let lt = above-has y x m g (ground arith) in
        absurd (ground (arith, lt_asym y x lt, above-has x y l h))
  ]
]

cons_eq : {x y : Text} {l m : List Text} → x ≡ y → l ≡ m → ◌≡◌ {A = List Text} (x ∷ l) (y ∷ m)
cons_eq p q = rw (p, q) refl

-- Two increasing lists with the same members are one list.
pub increasing-ext :
    (l m : List Text)
    → increasing l ≡ true
    → increasing m ≡ true
    → ((x : Text) → has x l ≡ has x m)
    → l ≡ m
increasing-ext [] [] h g e = refl
increasing-ext [] (y ∷ m) h g e = absurd (ground (arith, e y, same_refl y))
increasing-ext (x ∷ l) [] h g e = absurd (ground (arith, e x, same_refl x))
increasing-ext (x ∷ l) (y ∷ m) h g e =
    cons_eq x_is_y (increasing-ext l m (ground arith) (ground arith) tails)
  where
    x_is_y : x ≡ y
    x_is_y =
        heads_agree x y l m (ground arith) (ground arith) (ground (arith, e x, same_refl x))
          (ground (arith, e y, same_refl y))

    tails : (z : Text) → has z l ≡ has z m
    tails z = elim (Bool-cases (same z x)) [
      | inl t ↦
          subst (λ w. has w l ≡ has w m) (sym (same-eq z x t))
            (not-has-above x l (ground arith)
              ∙ sym (subst (λ w. has w m ≡ false) (sym x_is_y) (not-has-above y m (ground arith))))
      | inr t ↦ ground (arith, e z, subst (λ w. same z w ≡ false) x_is_y t)
    ]

-- Sort and dedup make one list of all lists with the same members.
pub dedup-sort-ext :
    (l m : List Text) → ((x : Text) → has x l ≡ has x m) → dedup (sort l) ≡ dedup (sort m)
dedup-sort-ext l m e =
    increasing-ext (dedup (sort l)) (dedup (sort m)) (dedup-sort-increasing l)
      (dedup-sort-increasing m) (λ x. has-dedup-sort x l ∙ e x ∙ sym (has-dedup-sort x m))
