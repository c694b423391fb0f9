-- ===== src/Events/Numbered.antt =====
-- The numbering of the events of a game: src/game/events/game-events.repository.ts.
use livepoly_server.Base.{
  ℕ, zero, suc, ◌+◌, ◌-◌, ◌<◌, ◌≡◌, refl, sym, ap, true, false, List, [], ◌∷◌, ◌++◌, max, ltb,
  length, filter, sort_by, insert_by, leb, arith, All,
}
use livepoly_server.Types.{GameEngineEvent}
use livepoly_server.Events.{
  GameEventRow, last_sequence, numbered_from, append_events, is_in_order, is_in_reverse, reverse,
  list_latest_events,
}
use livepoly_server.Events.Slices.{drop, reverse-take-reverse, All-reverse}

pub length-numbered_from :
    (n : ℕ) (events : List GameEngineEvent) → length (numbered_from n events) ≡ length events
unfolding numbered_from
length-numbered_from n [] = refl
length-numbered_from n (event ∷ events) = ap suc (length-numbered_from (suc n) events)

pub numbered_from-empty : (n : ℕ) → numbered_from n [] ≡ []
unfolding numbered_from
numbered_from-empty n = refl

last-numbered_from :
    (n : ℕ) (events : List GameEngineEvent)
    → max n (last_sequence (numbered_from (suc n) events)) ≡ n + length events
unfolding numbered_from
last-numbered_from n [] = omega arith
last-numbered_from n (event ∷ events) =
    let rest = last-numbered_from (suc n) events in omega (arith, rest)

numbered_from-append :
    (n k : ℕ) (events more : List GameEngineEvent)
    → k ≡ n + length events
    → numbered_from n (events ++ more) ≡ numbered_from n events ++ numbered_from k more
unfolding numbered_from
numbered_from-append n k [] more e =
    let same : n ≡ k = omega (arith, e) in ap (λ i. numbered_from i more) same
numbered_from-append n k (event ∷ events) more e =
    ap (λ rows. record { sequence = n; event = event } ∷ rows)
      (numbered_from-append (suc n) k events more (omega (arith, e)))

-- Where the events of a game are numbered from 1 on without a gap, to append more of them numbers all
-- of them from 1 on without a gap, in order.
pub append_events-numbered_from :
    (events more : List GameEngineEvent)
    → append_events more (numbered_from 1 events) ≡ numbered_from 1 (events ++ more)
unfolding append_events
append_events-numbered_from events more =
    let last = last-numbered_from 0 events in
    sym (numbered_from-append 1 _ events more (omega (arith, last)))

pub sort_by-numbered_from :
    (n : ℕ) (events : List GameEngineEvent)
    → sort_by is_in_order (numbered_from n events) ≡ numbered_from n events
unfolding numbered_from
sort_by-numbered_from n [] = refl
sort_by-numbered_from n (event ∷ []) = refl
sort_by-numbered_from n (event ∷ next ∷ events) =
    rw (sort_by-numbered_from (suc n) (next ∷ events)) (ground arith)

pub drop-numbered_from :
    (n k j : ℕ) (events : List GameEngineEvent)
    → j ≡ n + k
    → drop k (numbered_from n events) ≡ numbered_from j (drop k events)
unfolding drop numbered_from
drop-numbered_from n zero j events e = ap (λ i. numbered_from i events) (omega (arith, e))
drop-numbered_from n (suc k) j [] e = refl
drop-numbered_from n (suc k) j (event ∷ events) e =
    drop-numbered_from (suc n) k j events (omega (arith, e))

pub filter-numbered_from :
    (s n k : ℕ) (events : List GameEngineEvent)
    → k ≡ s - n
    → filter (λ row. ltb s row.sequence) (numbered_from (suc n) events)
      ≡ drop k (numbered_from (suc n) events)
unfolding drop numbered_from
filter-numbered_from s n zero [] e = refl
filter-numbered_from s n (suc k) [] e = refl
filter-numbered_from s n zero (event ∷ events) e =
    let kept : ltb s (suc n) ≡ true = ground (arith, e) in
    rw kept (
      ap (λ rows. record { sequence = suc n; event = event } ∷ rows)
        (filter-numbered_from s (suc n) zero events (omega (arith, e))))
filter-numbered_from s n (suc k) (event ∷ events) e =
    let left_out : ltb s (suc n) ≡ false = ground (arith, e) in
    rw left_out (filter-numbered_from s (suc n) k events (omega (arith, e)))

module _ (row : GameEventRow) where
  insert_last :
      (rows : List GameEventRow)
      → All (λ other. row.sequence < other.sequence) rows
      → insert_by is_in_reverse row rows ≡ rows ++ row ∷ []
  insert_last [] h = refl
  insert_last (other ∷ rows) h =
      let after : leb other.sequence row.sequence ≡ false = ground (arith, h.0) in
      rw after (ap (λ l. other ∷ l) (insert_last rows h.1))

above :
    (m n : ℕ) (events : List GameEngineEvent)
    → m < n
    → All (λ other. m < other.sequence) (numbered_from n events)
unfolding numbered_from
above m n [] h = tt
above m n (event ∷ events) h = (h, above m (suc n) events (omega (arith, h)))

sort_back-numbered_from :
    (n : ℕ) (events : List GameEngineEvent)
    → sort_by is_in_reverse (numbered_from n events) ≡ reverse (numbered_from n events)
unfolding numbered_from reverse
sort_back-numbered_from n [] = refl
sort_back-numbered_from n (event ∷ events) = rw (sort_back-numbered_from (suc n) events) (
    insert_last _ _
      (All-reverse _ (numbered_from (suc n) events) (above n (suc n) events (omega arith))))

-- The latest events, read backwards and turned round, are the last ones.
pub latest-numbered_from :
    (n limit k : ℕ) (events : List GameEngineEvent)
    → k ≡ length events - limit
    → list_latest_events limit (numbered_from n events) ≡ drop k (numbered_from n events)
unfolding list_latest_events
latest-numbered_from n limit k events e =
    let count = length-numbered_from n events in
    rw (sort_back-numbered_from n events)
      (reverse-take-reverse limit k (numbered_from n events) (omega (arith, e, count)))
