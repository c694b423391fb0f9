-- ===== src/Base/Doubles.antt =====
-- Products of IEEE 754 doubles, as exact natural numbers: the exact product of two significands is
-- rounded to 53 significant bits, ties to even.
use Prim.Native.Nat.{ℕ, zero, suc, ◌+◌, ◌*◌, ◌/◌, ◌%◌, ◌^◌}
use mathlib.Core.Bool.{◌&&◌, ◌||◌}
use livepoly_server.Base.Tests.{ltb, ◌==◌, if◌then◌else◌}

-- The bits that must be dropped to leave 53 of them; 64 rounds serve a product below 2^117.
excess_bits : ℕ → ℕ → ℕ
excess_bits zero product = 0
excess_bits (suc fuel) product =
    let rest = suc (excess_bits fuel (product / 2)) in if ltb product (2 ^ 53) then 0 else rest

-- `product` divided by `unit` and rounded to nearest, ties to even.
round_to_even : ℕ → ℕ → ℕ
round_to_even product unit =
    let quotient = product / unit in
    let remainder = product % unit in
    if ltb unit (2 * remainder) || ((2 * remainder == unit) && (quotient % 2 == 1))
    then quotient + 1
    else quotient

-- The double nearest to `product`, which stands for a multiple of some fixed power of two.
unfoldable pub round_double : ℕ → ℕ
unfolding excess_bits round_to_even
round_double product =
    let dropped = excess_bits 64 product in round_to_even product (2 ^ dropped) * 2 ^ dropped
