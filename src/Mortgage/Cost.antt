-- ===== src/Mortgage/Cost.antt =====
-- `getUnmortgageCost` of src/game/engine/game-engine-mortgage.ts: `Math.ceil(mortgageValue * 1.1)`.
-- The double 1.1 is 4953959590107546 / 2^52.
use livepoly_server.Base.{ℕ, ◌+◌, ◌-◌, ◌*◌, ◌/◌, ◌^◌, round_double}

unfoldable pub get_unmortgage_cost : ℕ → ℕ
unfolding round_double
get_unmortgage_cost mortgage_value =
    (round_double (mortgage_value * 4953959590107546) + (2 ^ 52 - 1)) / 2 ^ 52
