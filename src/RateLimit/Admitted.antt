-- ===== src/RateLimit/Admitted.antt =====
-- What the rate limit of src/rate-limit/rate-limit.service.ts admits of a sequence of requests.
use livepoly_server.Base.{
  ℕ, ◌+◌, ◌≤◌, ◌≡◌, refl, none, List, [], ◌∷◌, filter, length, leb, ◌&&◌, arith, Bool-cases, inl,
  inr,
}
use livepoly_server.Outcomes.{Outcome, done, failed}
use livepoly_server.RateLimit.{
  read, or_else, BucketNumbers, RateLimitKeys, ConsumeRateLimitInput, is_recent, take_token,
  rate_limit_script, consume, answered, window_ms_of, is_misconfigured,
}
use livepoly_server.RateLimit.Window.{
  Tracks, Seen, read-Seen, recent-Seen, keep_until-Tracks, with_request, request-Seen, Limited,
  request-Limited, Tracks-later, Limited-later,
}

-- Times that do not go back, from a time on.
abbrev pub IsAscendingFrom : ℕ → List ℕ → Type 0
IsAscendingFrom last [] = Unit
IsAscendingFrom last (now ∷ times) = (last ≤ now) × IsAscendingFrom now times

module _ {ℓ} {Double : Type ℓ} (numbers : BucketNumbers Double)
    (input : ConsumeRateLimitInput) where
  abbrev counted : Outcome (Unit {0}) → ℕ → List ℕ → List ℕ
  counted (done value) now rest = now ∷ rest
  counted (failed error) now rest = rest

  -- The times of the requests that `consume` admits.
  abbrev pub admitted : List ℕ → RateLimitKeys Double → List ℕ
  admitted [] keys = []
  admitted (now ∷ times) keys =
      let run = consume numbers input now keys in counted run.0 now (admitted times run.1)

  -- Those of some times that lie in the window that ends at a time.
  abbrev pub in_window : ℕ → List ℕ → List ℕ
  in_window time times =
      filter (λ at. leb at time && is_recent (window_ms_of numbers input) time at) times

  Kept : ℕ → (ℕ → ℕ) → Outcome (Unit {0}) × RateLimitKeys Double → Type 0
  Kept now used (failed error, keys) =
      Limited (window_ms_of numbers input) input.limit now used
      × Tracks (window_ms_of numbers input) now used keys.sliding_window
  Kept now used (done value, keys) =
      let more = with_request (window_ms_of numbers input) now used in
      Limited (window_ms_of numbers input) input.limit now more
      × Tracks (window_ms_of numbers input) now more keys.sliding_window

  take_token-Kept :
      (last now ttl : ℕ) (refill tokens : Double) (used : ℕ → ℕ) (recent : List ℕ)
      → Limited (window_ms_of numbers input) input.limit last used
      → last ≤ now
      → Seen (window_ms_of numbers input) now used recent
      → used now + 1 ≤ input.limit
      → Kept now used (
          answered numbers
            (take_token numbers now (window_ms_of numbers input) ttl refill recent tokens))
  unfolding Kept take_token
  take_token-Kept last now ttl refill tokens used recent l h s room =
      let w = window_ms_of numbers input in
      elim (Bool-cases (numbers.below tokens (numbers.number 1))) [
        | inl t ↦
            rw t
              (Limited-later w input.limit last now used l h, keep_until-Tracks w now used recent s)
        | inr t ↦ rw t (
          request-Limited w input.limit last now used l h room,
          keep_until-Tracks w now (with_request w now used) (now ∷ recent)
              (request-Seen w now used recent s),
        )
      ]

  consume-Kept :
      (last now : ℕ) (used : ℕ → ℕ) (keys : RateLimitKeys Double)
      → Limited (window_ms_of numbers input) input.limit last used
      → Tracks (window_ms_of numbers input) last used keys.sliding_window
      → last ≤ now
      → Kept now used (consume numbers input now keys)
  unfolding Kept consume rate_limit_script
  consume-Kept last now used keys l t h =
      let w = window_ms_of numbers input in
      let recent = filter (is_recent w now) (or_else [] (read now keys.sliding_window)) in
      let here = read-Seen w last now used keys.sliding_window t h in
      let seen = recent-Seen w now used (or_else [] (read now keys.sliding_window)) here in
      let count : length recent ≡ used now = here.seen_counts now (omega arith) in
      elim (Bool-cases (is_misconfigured numbers input)) [
        | inl m ↦ rw m (
          Limited-later w input.limit last now used l h,
          Tracks-later w last now used keys.sliding_window t h,
        )
        | inr m ↦ rw m (elim (Bool-cases (leb input.limit (length recent))) [
          | inl full ↦ rw full (
            Limited-later w input.limit last now used l h,
            keep_until-Tracks w now used recent seen,
          )
          | inr room ↦
              rw room
                (take_token-Kept last now _ _ _ used recent l h seen (ground (arith, count, room)))
        ])
      ]

  counted-Limited :
      (last now : ℕ) (used : ℕ → ℕ) (run : Outcome (Unit {0}) × RateLimitKeys Double)
      (rest : List ℕ)
      → Kept now used run
      → ((more : ℕ → ℕ)
          → Limited (window_ms_of numbers input) input.limit now more
          → Tracks (window_ms_of numbers input) now more (run.1).sliding_window
          → (time : ℕ) → more time + length (in_window time rest) ≤ input.limit)
      → (time : ℕ) → used time + length (in_window time (counted run.0 now rest)) ≤ input.limit
  unfolding Kept
  counted-Limited last now used (failed error, keys) rest (l, t) h time = h used l t time
  counted-Limited last now used (done value, keys) rest (l, t) h time =
      let bound = h (with_request (window_ms_of numbers input) now used) l t time in
      ground (arith, bound)

  admitted-Limited :
      (last : ℕ) (times : List ℕ) (used : ℕ → ℕ) (keys : RateLimitKeys Double)
      → IsAscendingFrom last times
      → Limited (window_ms_of numbers input) input.limit last used
      → Tracks (window_ms_of numbers input) last used keys.sliding_window
      → (time : ℕ) → used time + length (in_window time (admitted times keys)) ≤ input.limit
  admitted-Limited last [] used keys a l t time = let w = l.within time in omega (arith, w)
  admitted-Limited last (now ∷ times) used keys a l t time =
      counted-Limited last now used _ _ (consume-Kept last now used keys l t a.0)
        (λ more l' t'. admitted-Limited now times more _ a.1 l' t') time

  -- Nothing is stored.
  abbrev pub no_keys : RateLimitKeys Double
  no_keys = record { sliding_window = none; bucket_tokens = none; bucket_timestamp = none }

  -- Where the times of the requests do not go back and nothing is stored at first, in every window of
  -- the length that is configured, wherever it ends, no more requests are admitted than the limit.
  pub admitted-WithinLimit :
      (times : List ℕ) (time : ℕ)
      → IsAscendingFrom 0 times
      → length (in_window time (admitted times no_keys)) ≤ input.limit
  admitted-WithinLimit times time a =
      let bound =
        admitted-Limited 0 times (λ t. 0) no_keys a
          (record { within = λ t. omega arith; falls = λ t t' h k. omega arith })
          (record { before = tt; expires = tt; counts = λ t h. refl }) time in
      omega (arith, bound)
