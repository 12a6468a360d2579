-- ===== src/Prelude/Orders.antt =====
-- Comparisons with three outcomes, and those of sequences.
use Prim.Native.Nat.{compare, Ordering}
use mathlib.Core.Path.{◌≡◌, refl, sym, ap, ◌∙◌}
use mathlib.Core.Logic.{◌≢◌, ◌⊎◌, inl, inr}
use mathlib.Core.List.{List, [], ◌∷◌}
use native.Mathlib.Omega.{arith}

abbrev pub invert : Ordering → Ordering
invert Ordering.lt = Ordering.gt
invert Ordering.eq = Ordering.eq
invert Ordering.gt = Ordering.lt

-- `if (compared !== 0) return compared`, and the rest.
abbrev pub or_else : Ordering → Ordering → Ordering
or_else Ordering.lt p = Ordering.lt
or_else Ordering.eq p = p
or_else Ordering.gt p = Ordering.gt

-- The laws of a total preorder.
pub record IsOrder {ℓ} {A : Type ℓ} (cmp : A → A → Ordering) : Type ℓ where
  pub flip : (a b : A) → cmp b a ≡ invert (cmp a b)
  pub lt_trans : (a b c : A) → cmp a b ≡ Ordering.lt → cmp b c ≡ Ordering.lt → cmp a c ≡ Ordering.lt
  pub eq_left : (a b c : A) → cmp a b ≡ Ordering.eq → cmp a c ≡ cmp b c

invert_twice : (o : Ordering) → invert (invert o) ≡ o
invert_twice Ordering.lt = refl
invert_twice Ordering.eq = refl
invert_twice Ordering.gt = refl

pub eq_right {ℓ} :
    {A : Type ℓ} (cmp : A → A → Ordering) (h : IsOrder cmp) (a b c : A)
    → cmp b c ≡ Ordering.eq
    → cmp a c ≡ cmp a b
eq_right cmp h a b c e =
    let back : cmp c b ≡ Ordering.eq = h.flip b c ∙ ap invert e in
    h.flip c a ∙ ap invert (h.eq_left c b a back ∙ h.flip a b) ∙ invert_twice (cmp a b)

pub compare-IsOrder : IsOrder compare
compare-IsOrder = record {
  flip = λ a b. ground arith;
  lt_trans = λ a b c h k. ground arith;
  eq_left = λ a b c h. ground arith;
}

-- A comparison of something that is read of the values.
pub IsOrder-on {ℓ κ} :
    {A : Type ℓ} {B : Type κ} (f : A → B) (cmp : B → B → Ordering)
    → IsOrder cmp
    → IsOrder (λ a b. cmp (f a) (f b))
IsOrder-on f cmp h = record {
  flip = λ a b. h.flip (f a) (f b);
  lt_trans = λ a b c. h.lt_trans (f a) (f b) (f c);
  eq_left = λ a b c. h.eq_left (f a) (f b) (f c);
}

invert-or_else : (o p : Ordering) → invert (or_else o p) ≡ or_else (invert o) (invert p)
invert-or_else Ordering.lt p = refl
invert-or_else Ordering.eq p = refl
invert-or_else Ordering.gt p = refl

or_else-lt :
    (o p : Ordering)
    → or_else o p ≡ Ordering.lt
    → (o ≡ Ordering.lt) ⊎ ((o ≡ Ordering.eq) × (p ≡ Ordering.lt))
or_else-lt Ordering.lt p h = inl refl
or_else-lt Ordering.eq p h = inr (refl, h)
or_else-lt Ordering.gt p h = cc

or_else-eq : (o p : Ordering) → or_else o p ≡ Ordering.eq → (o ≡ Ordering.eq) × (p ≡ Ordering.eq)
or_else-eq Ordering.lt p h = cc
or_else-eq Ordering.eq p h = (refl, h)
or_else-eq Ordering.gt p h = cc

-- One comparison, and where it does not decide another.
pub IsOrder-or_else {ℓ} :
    {A : Type ℓ} (f g : A → A → Ordering)
    → IsOrder f
    → IsOrder g
    → IsOrder (λ a b. or_else (f a b) (g a b))
IsOrder-or_else f g p q = record {
  flip = λ a b. rw (p.flip a b, q.flip a b) (sym (invert-or_else (f a b) (g a b)));
  lt_trans = λ a b c h k. elim (or_else-lt (f a b) (g a b) h) [
    | inl x ↦ elim (or_else-lt (f b c) (g b c) k) [
      | inl y ↦ rw (p.lt_trans a b c x y) refl
      | inr (y, z) ↦ rw (eq_right f p a b c y, x) refl
    ]
    | inr (x, w) ↦ elim (or_else-lt (f b c) (g b c) k) [
      | inl y ↦ rw (p.eq_left a b c x, y) refl
      | inr (y, z) ↦ rw (p.eq_left a b c x, y, q.lt_trans a b c w z) refl
    ]
  ];
  eq_left = λ a b c h.
      let (x, y) = or_else-eq (f a b) (g a b) h in rw (p.eq_left a b c x, q.eq_left a b c y) refl;
}

-- The order of the first difference, where what ends is less than what goes on.
unfoldable pub compare_list {ℓ} : {A : Type ℓ} → (A → A → Ordering) → List A → List A → Ordering
compare_list cmp [] [] = Ordering.eq
compare_list cmp [] (y ∷ ys) = Ordering.lt
compare_list cmp (x ∷ xs) [] = Ordering.gt
compare_list cmp (x ∷ xs) (y ∷ ys) = or_else (cmp x y) (compare_list cmp xs ys)

module _ {ℓ} {A : Type ℓ} (cmp : A → A → Ordering) (p : IsOrder cmp) where
  flip_list : (xs ys : List A) → compare_list cmp ys xs ≡ invert (compare_list cmp xs ys)
  unfolding compare_list
  flip_list [] [] = refl
  flip_list [] (y ∷ ys) = refl
  flip_list (x ∷ xs) [] = refl
  flip_list (x ∷ xs) (y ∷ ys) =
      rw (p.flip x y, flip_list xs ys) (sym (invert-or_else (cmp x y) (compare_list cmp xs ys)))

  lt_trans_list :
      (xs ys zs : List A)
      → compare_list cmp xs ys ≡ Ordering.lt
      → compare_list cmp ys zs ≡ Ordering.lt
      → compare_list cmp xs zs ≡ Ordering.lt
  unfolding compare_list
  lt_trans_list [] [] zs h k = cc
  lt_trans_list [] (y ∷ ys) [] h k = cc
  lt_trans_list [] (y ∷ ys) (z ∷ zs) h k = refl
  lt_trans_list (x ∷ xs) [] zs h k = cc
  lt_trans_list (x ∷ xs) (y ∷ ys) [] h k = cc
  lt_trans_list (x ∷ xs) (y ∷ ys) (z ∷ zs) h k =
      elim (or_else-lt (cmp x y) (compare_list cmp xs ys) h) [
        | inl a ↦ elim (or_else-lt (cmp y z) (compare_list cmp ys zs) k) [
          | inl b ↦ rw (p.lt_trans x y z a b) refl
          | inr (b, d) ↦ rw (eq_right cmp p x y z b, a) refl
        ]
        | inr (a, e) ↦ elim (or_else-lt (cmp y z) (compare_list cmp ys zs) k) [
          | inl b ↦ rw (p.eq_left x y z a, b) refl
          | inr (b, d) ↦ rw (p.eq_left x y z a, b) (lt_trans_list xs ys zs e d)
        ]
      ]

  eq_left_list :
      (xs ys zs : List A)
      → compare_list cmp xs ys ≡ Ordering.eq
      → compare_list cmp xs zs ≡ compare_list cmp ys zs
  unfolding compare_list
  eq_left_list [] [] zs h = refl
  eq_left_list [] (y ∷ ys) zs h = cc
  eq_left_list (x ∷ xs) [] zs h = cc
  eq_left_list (x ∷ xs) (y ∷ ys) [] h = refl
  eq_left_list (x ∷ xs) (y ∷ ys) (z ∷ zs) h =
      let (a, e) = or_else-eq (cmp x y) (compare_list cmp xs ys) h in
      rw (p.eq_left x y z a, eq_left_list xs ys zs e) refl

  pub compare_list-IsOrder : IsOrder (compare_list cmp)
  compare_list-IsOrder = record {
    flip = flip_list;
    lt_trans = lt_trans_list;
    eq_left = eq_left_list;
  }

pub Ordering-cases : (o : Ordering) → (o ≡ Ordering.lt) ⊎ ((o ≡ Ordering.eq) ⊎ (o ≡ Ordering.gt))
Ordering-cases Ordering.lt = inl refl
Ordering-cases Ordering.eq = inr (inl refl)
Ordering-cases Ordering.gt = inr (inr refl)

module _ {ℓ} {A : Type ℓ} (cmp : A → A → Ordering) (p : IsOrder cmp) where
  pub not_lt_self : (a : A) → cmp a a ≢ Ordering.lt
  not_lt_self a h = let back : cmp a a ≡ Ordering.gt = p.flip a a ∙ ap invert h in cc (h, back)

  pub not_lt_trans :
      (a b c : A) → cmp a b ≢ Ordering.lt → cmp b c ≢ Ordering.lt → cmp a c ≢ Ordering.lt
  not_lt_trans a b c h k e = elim (Ordering-cases (cmp b c)) [
    | inl x ↦ k x
    | inr (inl x) ↦ h (sym (eq_right cmp p a b c x) ∙ e)
    | inr (inr x) ↦ h (p.lt_trans a c b e (p.flip b c ∙ ap invert x))
  ]
