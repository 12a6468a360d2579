-- ===== src/Platform/Numbers.antt =====
-- What `compareNumeric` of supported-target.mjs means for decimal texts.
use Prim.Native.Nat.{compare, Ordering}
use native.Mathlib.Omega.{compare-eq, compare-lt, compare-gt}
use native.Mathlib.Nat.{mul-le-mul_right, suc-mul}
use dsh_docker.Prelude.{
  ℕ, zero, suc, ◌+◌, ◌-◌, ◌*◌, ◌≤◌, ◌<◌, ◌≡◌, refl, sym, ap, ◌∙◌, inl, inr, [], ◌∷◌, true, arith,
}
use dsh_docker.Prelude.Lists.{length}
use dsh_docker.Prelude.Text.{Text}
use dsh_docker.Prelude.Orders.{compare_list, Ordering-cases}
use dsh_docker.Platform.Contracts.{all_chars}
use dsh_docker.Platform.Versions.{is_digit, is_canonical, compare_text, compare_numeric}

abbrev pub tens : ℕ → ℕ
tens zero = 1
tens (suc n) = 10 * tens n

-- The number that a decimal text stands for.
pub value : Text → ℕ
value [] = 0
value (c ∷ cs) = (c - b'0') * tens (length cs) + value cs

scaled : (d e t : ℕ) → d + 1 ≤ e → d * t + t ≤ e * t
scaled d e t h =
    let bigger : suc d * t ≤ e * t = mul-le-mul_right t (omega arith) in
    omega (arith, suc-mul d t, bigger)

value-lt-tens : (t : Text) → all_chars is_digit t ≡ true → value t < tens (length t)
unfolding value
value-lt-tens [] h = omega arith
value-lt-tens (c ∷ cs) h =
    let below = value-lt-tens cs (ground arith) in
    let digit : c - b'0' + 1 ≤ 10 = ground arith in
    omega (arith, scaled (c - b'0') 10 (tens (length cs)) digit)

tens_mono : (m n : ℕ) → m ≤ n → tens m ≤ tens n
tens_mono zero zero h = omega arith
tens_mono zero (suc n) h = omega (arith, tens_mono zero n (omega arith))
tens_mono (suc m) zero h = absurd (omega arith)
tens_mono (suc m) (suc n) h = omega (arith, tens_mono m n (omega arith))

compare_lt : (m n : ℕ) → m < n → Ordering.lt ≡ compare m n
compare_lt m n h = ground arith

compare_gt : (m n : ℕ) → n < m → Ordering.gt ≡ compare m n
compare_gt m n h = ground arith

compare_add : (k m n : ℕ) → compare m n ≡ compare (k + m) (k + n)
compare_add k m n = ground arith

-- Texts of the same length are ordered as their numbers.
compare_text-value :
    (a b : Text)
    → all_chars is_digit a ≡ true
    → all_chars is_digit b ≡ true
    → length a ≡ length b
    → compare_text a b ≡ compare (value a) (value b)
unfolding compare_text compare_list value
compare_text-value [] [] h k e = refl
compare_text-value [] (d ∷ ds) h k e = absurd (omega arith)
compare_text-value (c ∷ cs) [] h k e = absurd (omega arith)
compare_text-value (c ∷ cs) (d ∷ ds) h k e =
    let below = value-lt-tens cs (ground arith) in
    let below' = value-lt-tens ds (ground arith) in
    let same : length cs ≡ length ds = omega arith in
    let scale : tens (length cs) ≡ tens (length ds) = ap tens same in
    let rest = compare_text-value cs ds (ground arith) (ground arith) same in
    elim (Ordering-cases (compare c d)) [
      | inl less ↦
          let step = scaled (c - b'0') (d - b'0') (tens (length ds)) (ground arith) in
          rw less (
            compare_lt (value (c ∷ cs)) (value (d ∷ ds))
              (rw scale (omega (arith, rw scale at below))))
      | inr (inl equal) ↦
          let digits : c ≡ d = compare-eq c d equal in
          rw equal (
            rest ∙ compare_add ((c - b'0') * tens (length cs)) (value cs) (value ds) ∙ (λ i.
              compare ((c - b'0') * tens (length cs) + value cs)
                ((digits i - b'0') * scale i + value ds)))
      | inr (inr more) ↦
          let step = scaled (d - b'0') (c - b'0') (tens (length cs)) (ground arith) in
          let small = rw (sym scale) at below' in
          rw more (compare_gt (value (c ∷ cs)) (value (d ∷ ds)) (rw (sym scale) (omega arith)))
    ]

is_canonical-digits : (t : Text) → is_canonical t ≡ true → all_chars is_digit t ≡ true
unfolding is_canonical
is_canonical-digits [] h = cc
is_canonical-digits (c ∷ []) h = ground arith
is_canonical-digits (c ∷ d ∷ cs) h = ground arith

-- A longer text stands for a larger number.
value-lt-longer :
    (a b : Text)
    → is_canonical a ≡ true
    → is_canonical b ≡ true
    → length a < length b
    → value a < value b
unfolding is_canonical value
value-lt-longer a [] h k l = absurd (omega arith)
value-lt-longer [] (c ∷ []) h k l = cc
value-lt-longer (d ∷ ds) (c ∷ []) h k l = absurd (omega arith)
value-lt-longer a (c ∷ d ∷ cs) h k l =
    let small = value-lt-tens a (is_canonical-digits a h) in
    let wide = tens_mono (length a) (length (d ∷ cs)) (omega arith) in
    let step = scaled 0 (c - b'0') (tens (length (d ∷ cs))) (ground arith) in omega arith

-- On decimal texts without leading zeros the comparison by length and characters is the comparison
-- of the numbers that they stand for, however large.
pub compare_numeric-value :
    (a b : Text)
    → is_canonical a ≡ true
    → is_canonical b ≡ true
    → compare_numeric a b ≡ compare (value a) (value b)
unfolding compare_numeric
compare_numeric-value a b h k = elim (Ordering-cases (compare (length a) (length b))) [
  | inl shorter ↦ rw shorter (
      compare_lt (value a) (value b)
        (value-lt-longer a b h k (compare-lt (length a) (length b) shorter)))
  | inr (inl same) ↦ rw same (
      compare_text-value a b (is_canonical-digits a h) (is_canonical-digits b k)
        (compare-eq (length a) (length b) same))
  | inr (inr longer) ↦ rw longer (
      compare_gt (value a) (value b)
        (value-lt-longer b a k h (compare-gt (length a) (length b) longer)))
]
