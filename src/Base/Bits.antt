-- ===== src/Base/Bits.antt =====
-- Single bits of a mask, by recursion on the bit's number, as `x & (1 << k)`, `x | (1 << k)` and
-- `x & ~(1 << k)` have them.
use osmo_bsc.Base.Tests.{◌==◌, if◌then◌else◌}
use Prim.Native.Nat.{ℕ, zero, suc, ◌+◌, ◌-◌, ◌*◌, ◌/◌, ◌%◌}
use mathlib.Core.Path.{◌≡◌}
use mathlib.Core.Bool.{Bool, true, false}
use native.Mathlib.Omega.{arith}

-- (x >> k) & 1
unfoldable pub bit : ℕ → ℕ → Bool
bit x zero = x % 2 == 1
bit x (suc k) = bit (x / 2) k

-- x | (1 << k)
unfoldable pub set_bit : ℕ → ℕ → ℕ
set_bit x zero = x - x % 2 + 1
set_bit x (suc k) = 2 * set_bit (x / 2) k + x % 2

-- x & ~(1 << k)
unfoldable pub clear_bit : ℕ → ℕ → ℕ
clear_bit x zero = x - x % 2
clear_bit x (suc k) = 2 * clear_bit (x / 2) k + x % 2

pub bit-set_bit : (x k j : ℕ) → bit (set_bit x k) j ≡ (if k == j then true else bit x j)
unfolding bit set_bit
bit-set_bit x zero zero = ground arith
bit-set_bit x zero (suc j) =
    let e : (x - x % 2 + 1) / 2 ≡ x / 2 = omega arith in rw e (ground arith)
bit-set_bit x (suc k) zero = ground arith
bit-set_bit x (suc k) (suc j) =
    let e : (2 * set_bit (x / 2) k + x % 2) / 2 ≡ set_bit (x / 2) k = omega arith in
    rw e (ground (arith, bit-set_bit (x / 2) k j))

pub bit-clear_bit : (x k j : ℕ) → bit (clear_bit x k) j ≡ (if k == j then false else bit x j)
unfolding bit clear_bit
bit-clear_bit x zero zero = ground arith
bit-clear_bit x zero (suc j) = let e : (x - x % 2) / 2 ≡ x / 2 = omega arith in rw e (ground arith)
bit-clear_bit x (suc k) zero = ground arith
bit-clear_bit x (suc k) (suc j) =
    let e : (2 * clear_bit (x / 2) k + x % 2) / 2 ≡ clear_bit (x / 2) k = omega arith in
    rw e (ground (arith, bit-clear_bit (x / 2) k j))
