-- ===== src/Derived/Ranking.antt =====
-- The standings and the winners: `calculateNetWorthStandings` and `getNetWorthWinners` of
-- src/game/engine/game-engine-derived-state.ts.
use livepoly_server.Base.{
  ℕ, ◌≤◌, ◌≡◌, true, false, List, [], ◌∷◌, All, All-filter, sort_by, insert_by, arith, ◌==◌,
  Bool-cases, inl, inr,
}
use livepoly_server.Types.{GameEngineState, PlayerNetWorth}
use livepoly_server.Ensures.{Ensures, returns, bind-Ensures}
use livepoly_server.Derived.{standing_le, calculate_net_worth_standings, get_net_worth_winners}

-- Nobody has a higher net worth than the given one.
abbrev pub AtMost : ℕ → List PlayerNetWorth → Type 0
AtMost net_worth standings = All (λ standing. standing.net_worth ≤ net_worth) standings

-- Every standing is followed by standings of at most its net worth.
abbrev pub Ranked : List PlayerNetWorth → Type 0
Ranked [] = Unit
Ranked (first ∷ standings) = AtMost first.net_worth standings × Ranked standings

AtMost-trans : (m n : ℕ) (xs : List PlayerNetWorth) → m ≤ n → AtMost m xs → AtMost n xs
AtMost-trans m n [] h a = tt
AtMost-trans m n (x ∷ xs) h a = (omega (arith, a.0), AtMost-trans m n xs h a.1)

standing_le-true : (a b : PlayerNetWorth) → standing_le a b ≡ true → b.net_worth ≤ a.net_worth
standing_le-true a b h = ground arith

standing_le-false : (a b : PlayerNetWorth) → standing_le a b ≡ false → a.net_worth ≤ b.net_worth
standing_le-false a b h = ground arith

AtMost-insert_by :
    (n : ℕ) (x : PlayerNetWorth) (xs : List PlayerNetWorth)
    → x.net_worth ≤ n
    → AtMost n xs
    → AtMost n (insert_by standing_le x xs)
AtMost-insert_by n x [] h a = (h, tt)
AtMost-insert_by n x (y ∷ ys) h a = elim (Bool-cases (standing_le x y)) [
  | inl before ↦ rw before (h, a)
  | inr after ↦ rw after (a.0, AtMost-insert_by n x ys h a.1)
]

insert_by-Ranked :
    (x : PlayerNetWorth) (xs : List PlayerNetWorth)
    → Ranked xs
    → Ranked (insert_by standing_le x xs)
insert_by-Ranked x [] r = (tt, tt)
insert_by-Ranked x (y ∷ ys) r = elim (Bool-cases (standing_le x y)) [
  | inl before ↦
      let higher = standing_le-true x y before in
      rw before ((higher, AtMost-trans y.net_worth x.net_worth ys higher r.0), r)
  | inr after ↦ rw after (
    AtMost-insert_by y.net_worth x ys (standing_le-false x y after) r.0,
    insert_by-Ranked x ys r.1,
  )
]

sort_by-Ranked : (xs : List PlayerNetWorth) → Ranked (sort_by standing_le xs)
sort_by-Ranked [] = tt
sort_by-Ranked (x ∷ xs) = insert_by-Ranked x (sort_by standing_le xs) (sort_by-Ranked xs)

winners_lead :
    (standings : List PlayerNetWorth)
    → Ranked standings
    → All (λ winner. AtMost winner.net_worth standings) (get_net_worth_winners standings)
unfolding get_net_worth_winners
winners_lead [] r = tt
winners_lead (first ∷ standings) r =
    All-filter (λ winner. AtMost winner.net_worth (first ∷ standings))
      (λ standing. standing.net_worth == first.net_worth) (first ∷ standings)
      λ winner same.
        (ground arith, AtMost-trans first.net_worth winner.net_worth standings (ground arith) r.0)

-- Where the standings can be calculated, they are ranked by net worth, and nobody in them has a
-- higher net worth than any of the winners.
pub standings-Ranked :
    (state : GameEngineState)
    → Ensures
        (λ standings.
          Ranked standings
          × All (λ winner. AtMost winner.net_worth standings) (get_net_worth_winners standings))
        (calculate_net_worth_standings state)
unfolding calculate_net_worth_standings
standings-Ranked state = bind-Ensures _ _ λ standings _. returns (
  sort_by-Ranked standings,
  winners_lead (sort_by standing_le standings) (sort_by-Ranked standings),
)
