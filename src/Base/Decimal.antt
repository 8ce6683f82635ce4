-- ===== src/Base/Decimal.antt =====
-- `strconv.FormatInt(n, 10)`, `strconv.FormatBool` and the dotted form of an IPv4 address.
use Prim.Native.Nat.{ℕ, zero, suc, ◌+◌, ◌/◌, ◌%◌}
use mathlib.Core.Bool.{Bool, true, false}
use mathlib.Core.List.{[], ◌∷◌, ◌++◌}
use an_lf.Base.Tests.{ltb}
use an_lf.Base.Text.{Bytes, bytes}
use an_lf.Base.Int.{ℤ, pos, negsuc}

-- The digits of a number in front of those that are known; the fuel is at least its digits.
pub digits_onto : ℕ → ℕ → Bytes → Bytes
digits_onto zero n known = known
digits_onto (suc k) n known = elim (ltb n 10) [
  | true ↦ (48 + n) ∷ known
  | _ ↦ digits_onto k (n / 10) ((48 + n % 10) ∷ known)
]

unfoldable pub format_nat : ℕ → Bytes
unfolding digits_onto
format_nat n = digits_onto (suc n) n []

unfoldable pub format_int : ℤ → Bytes
unfolding format_nat
format_int (pos n) = format_nat n
format_int (negsuc n) = bytes "-" ++ format_nat (suc n)

unfoldable pub format_bool : Bool → Bytes
format_bool true = bytes "true"
format_bool false = bytes "false"

-- The bytes of the address in the order in which they are written.
unfoldable pub format_ip : ℕ → ℕ → ℕ → ℕ → Bytes
unfolding format_nat
format_ip a b c d =
    format_nat a
    ++ bytes "."
    ++ format_nat b
    ++ bytes "."
    ++ format_nat c
    ++ bytes "."
    ++ format_nat d
