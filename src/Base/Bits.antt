-- ===== src/Base/Bits.antt =====
-- Single bits of machine words, by the binary digits of a number.
use Prim.Native.Nat.{ℕ, zero, suc, ◌+◌, ◌*◌, ◌/◌, ◌%◌, ◌<◌}
use mathlib.Core.Path.{◌≡◌}
use mathlib.Core.Bool.{Bool, true, false, ◌||◌, ◌&&◌, not}
use native.Mathlib.Omega.{arith}
use koros.Base.Tests.{◌==◌, if◌then◌else◌}

-- `w & (1 << k) != 0`, which is also `(w >> k) & 1 != 0`
unfoldable pub test_bit : ℕ → ℕ → Bool
test_bit w zero = w % 2 == 1
test_bit w (suc k) = test_bit (w / 2) k

-- `w | (1 << k)`
unfoldable pub or_bit : ℕ → ℕ → ℕ
or_bit w zero = w / 2 * 2 + 1
or_bit w (suc k) = or_bit (w / 2) k * 2 + w % 2

-- `w & !(1 << k)`
unfoldable pub clear_bit : ℕ → ℕ → ℕ
clear_bit w zero = w / 2 * 2
clear_bit w (suc k) = clear_bit (w / 2) k * 2 + w % 2

-- Twice a number and a digit: the number again, and the digit.
double : (a d : ℕ) → d < 2 → ((a * 2 + d) / 2 ≡ a) × ((a * 2 + d) % 2 ≡ d)
double a d h = omega arith

pub test_bit-or_bit : (w k j : ℕ) → test_bit (or_bit w k) j ≡ (k == j || test_bit w j)
unfolding test_bit or_bit
test_bit-or_bit w zero zero = ground arith
test_bit-or_bit w zero (suc j) = rw ((double (w / 2) 1 (omega arith)).0) (ground arith)
test_bit-or_bit w (suc k) zero = ground arith
test_bit-or_bit w (suc k) (suc j) =
    rw ((double (or_bit (w / 2) k) (w % 2) (omega arith)).0)
      (ground (arith, test_bit-or_bit (w / 2) k j))

pub test_bit-clear_bit : (w k j : ℕ) → test_bit (clear_bit w k) j ≡ (not (k == j) && test_bit w j)
unfolding test_bit clear_bit
test_bit-clear_bit w zero zero = ground arith
test_bit-clear_bit w zero (suc j) = rw (half_double (w / 2)) (ground arith)
  where
    half_double : (a : ℕ) → a * 2 / 2 ≡ a
    half_double a = omega arith
test_bit-clear_bit w (suc k) zero = ground arith
test_bit-clear_bit w (suc k) (suc j) =
    rw ((double (clear_bit (w / 2) k) (w % 2) (omega arith)).0)
      (ground (arith, test_bit-clear_bit (w / 2) k j))

-- The write of one bit.
unfoldable pub put_bit : ℕ → ℕ → Bool → ℕ
put_bit w k value = if value then or_bit w k else clear_bit w k

pub test_bit-put_bit :
    (w k j : ℕ) (value : Bool)
    → test_bit (put_bit w k value) j ≡ (if k == j then value else test_bit w j)
unfolding put_bit
test_bit-put_bit w k j true = ground (arith, test_bit-or_bit w k j)
test_bit-put_bit w k j false = ground (arith, test_bit-clear_bit w k j)
