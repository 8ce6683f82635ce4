-- ===== src/Float/Fixed.antt =====
-- A concrete number type that has the facts of `IsIeee`: integers that count thousandths. The tests
-- run the model with it.
use an_lf.Base.{
  ◌-◌, Option, some, bytes_eq, leb, ◌&&◌, ◌||◌, if◌then◌else◌, ℕ, zero, suc, ◌+◌, ◌*◌, ◌/◌, ◌%◌,
  ◌^◌, ◌≤◌, ◌<◌, ◌≡◌, refl, Bool, true, [], ◌∷◌, ◌++◌, none, arith, Bytes, bytes, ◌==◌, ltb,
}
use an_lf.Float.{Float64, IsIeee}
use an_lf.Base.Int.{ℤ, pos, negsuc, pos_part, neg_part, sub_ℕ, ◌+ℤ◌, ◌-ℤ◌, ltb_ℤ, leb_ℤ}

abbrev pub fix_lit : ℕ → ℕ → ℤ
fix_lit m e = pos (m * 1000 / 10 ^ e)

abbrev pub fix_of_int : ℤ → ℤ
fix_of_int n = sub_ℕ (pos_part n * 1000) (neg_part n * 1000)

abbrev pub fix_mul : ℤ → ℤ → ℤ
fix_mul a b =
    sub_ℕ (pos_part a * pos_part b / 1000 + neg_part a * neg_part b / 1000)
      (pos_part a * neg_part b / 1000 + neg_part a * pos_part b / 1000)

abbrev pub fix_div : ℤ → ℤ → ℤ
fix_div a b =
    sub_ℕ (pos_part a * 1000 / pos_part b + neg_part a * 1000 / neg_part b)
      (pos_part a * 1000 / neg_part b + neg_part a * 1000 / pos_part b)

abbrev pub fix_eq : ℤ → ℤ → Bool
fix_eq a b = pos_part a + neg_part b == pos_part b + neg_part a

-- The number of decimal digits after the first, on fuel.
fix_log : ℕ → ℕ → ℕ
fix_log zero n = 0
fix_log (suc k) n = elim (ltb n 10) [ true ↦ 0 | _ ↦ suc (fix_log k (n / 10)) ]

digits_of : ℕ → ℕ → Bytes
digits_of zero n = []
digits_of (suc k) n = digits_of k (n / 10) ++ (48 + n % 10) ∷ []

pub fix_log10 : ℤ → ℤ
unfolding fix_log
fix_log10 x = pos (fix_log 40 (pos_part x / 1000) * 1000)

pub fix_round : ℤ → ℤ
fix_round x = sub_ℕ ((pos_part x + 500) / 1000 * 1000) ((neg_part x + 500) / 1000 * 1000)

abbrev digit_value : ℕ → ℕ
digit_value c = if leb 48 c && leb c 57 then c - 48 else 0

-- The value of the first decimals, where the first one counts `w` thousandths.
fix_decimals : ℕ → Bytes → ℕ
fix_decimals w [] = 0
fix_decimals w (c ∷ s) = digit_value c * w + fix_decimals (w / 10) s

unfoldable pub fix_fraction : Bytes → Option ℤ
unfolding fix_decimals
fix_fraction (a ∷ b ∷ d ∷ ds) =
    if a == 48 && b == 46 then some (pos (fix_decimals 100 (d ∷ ds))) else none
fix_fraction _ = none

-- 0, 1, 1.0, and what begins with 0. and a byte.
unfoldable pub fix_parse : Bytes → Option ℤ
unfolding fix_fraction
fix_parse t =
    if bytes_eq t (bytes "0")
    then some (pos 0)
    else if bytes_eq t (bytes "1") || bytes_eq t (bytes "1.0")
    then some (pos 1000)
    else fix_fraction t

-- Six digits and three decimals, whatever precision is asked for.
pub fix_format : ℕ → ℤ → Bytes
unfolding digits_of
fix_format n x = digits_of 6 (pos_part x / 1000) ++ bytes "." ++ digits_of 3 (pos_part x % 1000)

abbrev pub fixed : Float64 ℤ
fixed = record {
  lit = fix_lit;
  of_int = fix_of_int;
  add = ◌+ℤ◌;
  sub = ◌-ℤ◌;
  mul = fix_mul;
  div = fix_div;
  lt = ltb_ℤ;
  le = leb_ℤ;
  eq = fix_eq;
  finite = λ _. true;
  log10 = fix_log10;
  round = fix_round;
  format = fix_format;
  parse = fix_parse;
}

fix_lit_lt :
    (m e n d : ℕ)
    → m ≤ 1000000
    → n ≤ 1000000
    → e ≤ 3
    → d ≤ 3
    → m * 10 ^ d < n * 10 ^ e
    → ltb_ℤ (fix_lit m e) (fix_lit n d) ≡ true
fix_lit_lt m zero n zero _ _ _ _ h = ground arith
fix_lit_lt m zero n (suc zero) _ _ _ _ h = ground arith
fix_lit_lt m zero n (suc (suc zero)) _ _ _ _ h = ground arith
fix_lit_lt m zero n (suc (suc (suc zero))) _ _ _ _ h = ground arith
fix_lit_lt m (suc zero) n zero _ _ _ _ h = ground arith
fix_lit_lt m (suc zero) n (suc zero) _ _ _ _ h = ground arith
fix_lit_lt m (suc zero) n (suc (suc zero)) _ _ _ _ h = ground arith
fix_lit_lt m (suc zero) n (suc (suc (suc zero))) _ _ _ _ h = ground arith
fix_lit_lt m (suc (suc zero)) n zero _ _ _ _ h = ground arith
fix_lit_lt m (suc (suc zero)) n (suc zero) _ _ _ _ h = ground arith
fix_lit_lt m (suc (suc zero)) n (suc (suc zero)) _ _ _ _ h = ground arith
fix_lit_lt m (suc (suc zero)) n (suc (suc (suc zero))) _ _ _ _ h = ground arith
fix_lit_lt m (suc (suc (suc zero))) n zero _ _ _ _ h = ground arith
fix_lit_lt m (suc (suc (suc zero))) n (suc zero) _ _ _ _ h = ground arith
fix_lit_lt m (suc (suc (suc zero))) n (suc (suc zero)) _ _ _ _ h = ground arith
fix_lit_lt m (suc (suc (suc zero))) n (suc (suc (suc zero))) _ _ _ _ h = ground arith
fix_lit_lt m (suc (suc (suc (suc e)))) n d _ _ k _ h = absurd (omega arith)
fix_lit_lt m e n (suc (suc (suc (suc d)))) _ _ _ k h = absurd (omega arith)

fix_mul_nonneg :
    (a b : ℤ) → leb_ℤ (pos 0) a ≡ true → leb_ℤ (pos 0) b ≡ true → leb_ℤ (pos 0) (fix_mul a b) ≡ true
fix_mul_nonneg (pos a) (pos b) h k = ground arith
fix_mul_nonneg (pos a) (negsuc b) h k = ground arith
fix_mul_nonneg (negsuc a) b h k = ground arith

fix_div_nonneg :
    (a b : ℤ) → leb_ℤ (pos 0) a ≡ true → ltb_ℤ (pos 0) b ≡ true → leb_ℤ (pos 0) (fix_div a b) ≡ true
fix_div_nonneg (pos a) (pos b) h k = ground arith
fix_div_nonneg (pos a) (negsuc b) h k = ground arith
fix_div_nonneg (negsuc a) b h k = ground arith

-- The thousandths have the facts that the proofs rely on.
pub fixed-IsIeee : IsIeee fixed
unfolding ◌+ℤ◌ ◌-ℤ◌
fixed-IsIeee = record {
  is_set = hlevel;
  le_trans = λ a b c h k. ground arith;
  lt_le = λ a b h. ground arith;
  lt_not_le = λ a b h. ground arith;
  le_left = λ a b h. ground arith;
  le_right = λ a b h. ground arith;
  not_lt_le = λ a b _ _ h. ground arith;
  not_le_lt = λ a b _ _ h. ground arith;
  le_refl = λ a _. ground arith;
  finite_between = λ _ _ _ _ _ _ _. refl;
  lit_finite = λ _ _ _ _. refl;
  lit_lt = fix_lit_lt;
  add_ge = λ a d _ h. ground arith;
  sub_le = λ a d _ h. ground arith;
  mul_nonneg = λ a b _ _. fix_mul_nonneg a b;
  div_nonneg = λ a b _. fix_div_nonneg a b;
  div_finite = λ _ _ _ _ _. refl;
  of_int_finite = λ _. refl;
  of_int_nonneg = λ n. ground arith;
  of_int_pos = λ n h. ground arith;
}

decimals_zero : (s : Bytes) → fix_decimals 0 s ≡ 0
unfolding fix_decimals
decimals_zero [] = refl
decimals_zero (c ∷ s) = omega (arith, decimals_zero s)

digit_value_le : (c : ℕ) → digit_value c ≤ 9
digit_value_le c = ground arith

-- The decimals make less than one.
fix_decimals_lt : (s : Bytes) → fix_decimals 100 s < 1000
unfolding fix_decimals
fix_decimals_lt [] = omega arith
fix_decimals_lt (a ∷ []) = omega (arith, digit_value_le a)
fix_decimals_lt (a ∷ b ∷ []) = omega (arith, digit_value_le a, digit_value_le b)
fix_decimals_lt (a ∷ b ∷ c ∷ s) =
    omega (arith, digit_value_le a, digit_value_le b, digit_value_le c, decimals_zero s)

fix_fraction_range :
    (t : Bytes) (x : ℤ)
    → fix_fraction t ≡ some x
    → (leb_ℤ (pos 0) x ≡ true) × (leb_ℤ x (pos 1000) ≡ true)
unfolding fix_fraction
fix_fraction_range [] x h = absurd (cc h)
fix_fraction_range (a ∷ []) x h = absurd (cc h)
fix_fraction_range (a ∷ b ∷ []) x h = absurd (cc h)
fix_fraction_range (a ∷ b ∷ d ∷ ds) x h = ground (arith, fix_decimals_lt (d ∷ ds))

-- Whatever is read lies between 0 and 1.
pub fix_parse_range :
    (t : Bytes) (x : ℤ)
    → fix_parse t ≡ some x
    → (leb_ℤ (pos 0) x ≡ true) × (leb_ℤ x (pos 1000) ≡ true)
unfolding fix_parse
fix_parse_range t x h = ground (arith, fix_fraction_range t x)
