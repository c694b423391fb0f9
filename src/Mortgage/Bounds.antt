-- ===== src/Mortgage/Bounds.antt =====
-- How far `getUnmortgageCost` of src/game/engine/game-engine-mortgage.ts is from ten per cent.
use livepoly_server.Base.{
  ℕ, ◌+◌, ◌*◌, ◌≤◌, ◌<◌, ◌≡◌, refl, true, Bool, ◌&&◌, leb, arith, all_below, all_below_sound,
}
use livepoly_server.Mortgage.Cost.{get_unmortgage_cost}

is_near : ℕ → Bool
is_near value =
    leb (11 * value) (10 * get_unmortgage_cost value)
    && leb (10 * get_unmortgage_cost value) (11 * value + 10)

near : (value : ℕ) → value < 401 → is_near value ≡ true
unfolding is_near get_unmortgage_cost all_below
near value h = all_below_sound 401 is_near value refl h

-- Up to a mortgage value of 400, the cost is at least the mortgage value with ten per cent of interest,
-- and at most one more than that.
pub unmortgage_cost-near :
    (value : ℕ)
    → value ≤ 400
    → (11 * value ≤ 10 * get_unmortgage_cost value)
      × (10 * get_unmortgage_cost value ≤ 11 * value + 10)
unfolding is_near
unmortgage_cost-near value h = let e = near value (omega arith) in (ground arith, ground arith)
