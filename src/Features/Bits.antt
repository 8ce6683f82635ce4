-- ===== src/Features/Bits.antt =====
-- `CountBits` of pkg/ebpf/manager.go counts the ones of a 64-bit number.
use an_lf.Base.{
  Bool-cases, inl, inr, subst, sym, false, ltb, ◌∙◌, ap, ℕ, zero, suc, ◌+◌, ◌*◌, ◌/◌, ◌%◌, ◌^◌, ◌≤◌,
  ◌<◌, ◌≡◌, refl, ap, ◌∙◌, some, arith,
}
use an_lf.Features.{ones_count, count_loop, count_bits}

ones_count_zero : (k : ℕ) → ones_count k 0 ≡ 0
unfolding ones_count
ones_count_zero zero = refl
ones_count_zero (suc k) = omega (arith, ones_count_zero k)

pub ones_count_le : (k n : ℕ) → ones_count k n ≤ k
unfolding ones_count
ones_count_le zero n = omega arith
ones_count_le (suc k) n = omega (arith, ones_count_le k (n / 2))

pow_suc : (k : ℕ) → 2 ^ suc k ≡ 2 * 2 ^ k
pow_suc k = ground arith

ones_count_none : (k n : ℕ) → ltb 0 n ≡ false → n % 2 + ones_count k (n / 2) ≡ 0
ones_count_none k n h =
    subst (λ m. m % 2 + ones_count k (m / 2) ≡ 0) (sym none_left) (omega (arith, ones_count_zero k))
  where
    none_left : n ≡ 0
    none_left = ground arith

-- Each round of the loop counts one digit, and one more round ends it.
count_loop-ones : (k n c : ℕ) → n < 2 ^ k → count_loop (suc k) n c ≡ some (c + ones_count k n)
unfolding count_loop ones_count
count_loop-ones zero n c h = ground arith
count_loop-ones (suc k) n c h = elim (Bool-cases (ltb 0 n)) [
  | inl more ↦
      rw more
        (count_loop-ones k (n / 2) (c + n % 2) (omega (arith, pow_suc k)) ∙ ap some (omega arith))
  | inr last ↦ rw last (ap some (ground (arith, ones_count_none k n)))
]

-- `CountBits` ends for every 64-bit number, with the number of ones among its 64 digits, as
-- `bits.OnesCount64` has it, which is at most 64.
pub count_bits-ones_count :
    (n : ℕ) → n < 2 ^ 64 → (count_bits n ≡ some (ones_count 64 n)) × (ones_count 64 n ≤ 64)
unfolding count_bits
count_bits-ones_count n h = (count_loop-ones 64 n 0 h ∙ ap some (omega arith), ones_count_le 64 n)
