-- ===== src/Float.antt =====
-- Go's float64 as a parameter of the model: the operations that the source uses, and the facts of
-- IEEE 754 that the proofs rely on. No value is assumed to be a number: NaN and the infinities are
-- values of `F`, and a fact that fails for them asks for `finite`.
pub mod Fixed
use an_lf.Base.{ℕ, ◌*◌, ◌^◌, ◌≤◌, ◌<◌, ◌≡◌, Bool, true, false, Option, Bytes}
use an_lf.Base.Int.{ℤ, pos}

pub record Float64 (F : Type 0) : Type 0 where
  -- The literal m / 10^e: `lit 7 1` is 0.7.
  pub lit : ℕ → ℕ → F
  -- The conversion of a Go integer.
  pub of_int : ℤ → F
  pub add : F → F → F
  pub sub : F → F → F
  pub mul : F → F → F
  pub div : F → F → F
  pub lt : F → F → Bool
  pub le : F → F → Bool
  pub eq : F → F → Bool
  pub finite : F → Bool
  -- `math.Log10`, `math.Round`, `fmt.Sprintf("%.nf", x)` and `strconv.ParseFloat(s, 64)`.
  pub log10 : F → F
  pub round : F → F
  pub format : ℕ → F → Bytes
  pub parse : Bytes → Option F

pub record IsIeee {F : Type 0} (f : Float64 F) : Type 0 where
  -- Two values are equal in one way at most, as bit patterns are.
  pub is_set : IsSet F
  pub le_trans : (a b c : F) → f.le a b ≡ true → f.le b c ≡ true → f.le a c ≡ true
  pub lt_le : (a b : F) → f.lt a b ≡ true → f.le a b ≡ true
  pub lt_not_le : (a b : F) → f.lt a b ≡ true → f.le b a ≡ false
  -- Only a number is comparable to something, and two numbers are comparable to one another.
  pub le_left : (a b : F) → f.le a b ≡ true → f.le a a ≡ true
  pub le_right : (a b : F) → f.le a b ≡ true → f.le b b ≡ true
  pub not_lt_le : (a b : F) → f.le a a ≡ true → f.le b b ≡ true → f.lt a b ≡ false → f.le b a ≡ true
  pub not_le_lt : (a b : F) → f.le a a ≡ true → f.le b b ≡ true → f.le a b ≡ false → f.lt b a ≡ true
  pub le_refl : (a : F) → f.finite a ≡ true → f.le a a ≡ true
  pub finite_between :
      (a b c : F)
      → f.finite a ≡ true
      → f.finite c ≡ true
      → f.le a b ≡ true
      → f.le b c ≡ true
      → f.finite b ≡ true
  -- The literals of the program have few digits: they are finite, and distinct ones stay apart.
  pub lit_finite : (m e : ℕ) → m ≤ 1000000 → e ≤ 3 → f.finite (f.lit m e) ≡ true
  pub lit_lt :
      (m e n d : ℕ)
      → m ≤ 1000000
      → n ≤ 1000000
      → e ≤ 3
      → d ≤ 3
      → m * 10 ^ d < n * 10 ^ e
      → f.lt (f.lit m e) (f.lit n d) ≡ true
  -- Rounding is monotone, so a sum or a difference stays on its side of the first operand.
  pub add_ge : (a d : F) → f.finite a ≡ true → f.le (f.lit 0 0) d ≡ true → f.le a (f.add a d) ≡ true
  pub sub_le : (a d : F) → f.finite a ≡ true → f.le (f.lit 0 0) d ≡ true → f.le (f.sub a d) a ≡ true
  pub mul_nonneg :
      (a b : F)
      → f.finite a ≡ true
      → f.finite b ≡ true
      → f.le (f.lit 0 0) a ≡ true
      → f.le (f.lit 0 0) b ≡ true
      → f.le (f.lit 0 0) (f.mul a b) ≡ true
  pub div_nonneg :
      (a b : F)
      → f.finite a ≡ true
      → f.le (f.lit 0 0) a ≡ true
      → f.lt (f.lit 0 0) b ≡ true
      → f.le (f.lit 0 0) (f.div a b) ≡ true
  -- Dividing a positive finite number by an integer from 1 on does not overflow.
  pub div_finite :
      (a : F) (n : ℕ)
      → f.finite a ≡ true
      → f.le (f.lit 0 0) a ≡ true
      → 0 < n
      → f.finite (f.div a (f.of_int (pos n))) ≡ true
  -- A 64-bit integer is far from the largest float64.
  pub of_int_finite : (n : ℤ) → f.finite (f.of_int n) ≡ true
  pub of_int_nonneg : (n : ℕ) → f.le (f.lit 0 0) (f.of_int (pos n)) ≡ true
  pub of_int_pos : (n : ℕ) → 0 < n → f.lt (f.lit 0 0) (f.of_int (pos n)) ≡ true
