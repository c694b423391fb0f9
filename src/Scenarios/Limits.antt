-- ===== src/Scenarios/Limits.antt =====
-- The rate limit of src/rate-limit/ on a few requests, with whole numbers for its tokens.
use livepoly_server.Base.{
  ℕ, ◌+◌, ◌-◌, ◌*◌, ◌/◌, ◌≤◌, ◌≡◌, refl, min, ltb, List, [], ◌∷◌, length, arith,
}
use livepoly_server.RateLimit.{
  BucketNumbers, ConsumeRateLimitInput, consume, rate_limit_script, take_token,
}
use livepoly_server.RateLimit.Admitted.{admitted, in_window, no_keys, admitted-WithinLimit}

abbrev whole : BucketNumbers ℕ
whole = record {
  number = λ n. n;
  add = λ a b. a + b;
  subtract = λ a b. a - b;
  multiply = λ a b. a * b;
  divide = λ a b. a / b;
  minimum = λ a b. min a b;
  below = λ a b. ltb a b;
  ceiling = λ a. a;
}

abbrev two_per_second : ConsumeRateLimitInput
two_per_second = record { limit = 2; window_seconds = 1; burst_limit = 5 }

abbrev requests : List ℕ
requests = 100 ∷ 200 ∷ 300 ∷ 1150 ∷ 1160 ∷ []

-- The third request comes too early, the fourth after the first has left the window.
few_of_many :
    admitted whole two_per_second requests (no_keys whole two_per_second) ≡ 100 ∷ 200 ∷ 1150 ∷ []
unfolding consume rate_limit_script take_token
few_of_many = refl

admitted-WithinLimit_example :
    length (
      in_window whole two_per_second 1150
        (admitted whole two_per_second requests (no_keys whole two_per_second)))
    ≤ 2
admitted-WithinLimit_example =
    admitted-WithinLimit whole two_per_second requests 1150
      (omega arith, (omega arith, (omega arith, (omega arith, (omega arith, tt)))))
