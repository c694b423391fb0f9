-- ===== src/RateLimit.antt =====
-- src/rate-limit/rate-limit.service.ts: the script in Redis that counts the requests of one scope and
-- identifier in a sliding window and in a bucket of tokens, and `consume`. One clock stands for the
-- times that servers send and for the expiry of keys. A member of the window is a fresh random id, so
-- only its score, the time of the request, is kept. The arithmetic of tokens is an argument. Metrics
-- are left out.
mod Window
pub mod Admitted
use livepoly_server.Base.{
  ℕ, ◌+◌, ◌-◌, ◌*◌, ◌/◌, Bool, false, true, Option, none, some, List, [], ◌∷◌, filter, length, ltb,
  leb, ◌==◌, ◌||◌, min, max, if◌then◌else◌,
}
use livepoly_server.Outcomes.{Outcome, done, failed, internal_server_error, too_many_requests}

-- A key of Redis with the time of its expiry.
pub record Expiring {ℓ} (A : Type ℓ) : Type ℓ where
  pub value : A
  pub expires_at : ℕ

abbrev pub read {ℓ} : {A : Type ℓ} → ℕ → Option (Expiring A) → Option A
read now none = none
read now (some key) = if ltb now key.expires_at then some key.value else none

abbrev pub or_else {ℓ} : {A : Type ℓ} → A → Option A → A
or_else default none = default
or_else default (some value) = value

-- The arithmetic of Lua on the tokens of a bucket.
pub record BucketNumbers {ℓ} (Double : Type ℓ) : Type ℓ where
  pub number : ℕ → Double
  pub add : Double → Double → Double
  pub subtract : Double → Double → Double
  pub multiply : Double → Double → Double
  pub divide : Double → Double → Double
  pub minimum : Double → Double → Double
  pub below : Double → Double → Bool
  pub ceiling : Double → ℕ

pub record RateLimitResult : Type 0 where
  pub allowed : Bool
  pub count : ℕ
  pub retry_after_seconds : ℕ

-- The keys of one scope and identifier: the sorted set of the window, and the bucket.
pub record RateLimitKeys {ℓ} (Double : Type ℓ) : Type ℓ where
  pub sliding_window : Option (Expiring (List ℕ))
  pub bucket_tokens : Option (Expiring Double)
  pub bucket_timestamp : Option (Expiring ℕ)

pub record ConsumeRateLimitInput : Type 0 where
  pub limit : ℕ
  pub window_seconds : ℕ
  pub burst_limit : ℕ

-- What `ZREMRANGEBYSCORE slidingKey 0 (now - windowMs)` keeps.
abbrev pub is_recent : ℕ → ℕ → ℕ → Bool
is_recent window_ms now score = ltb now (score + window_ms)

-- `ZRANGE slidingKey 0 0`: the lowest score.
abbrev pub oldest : ℕ → List ℕ → ℕ
oldest score [] = score
oldest score (next ∷ scores) = min score (oldest next scores)

abbrev pub retry_after_ms : ℕ → ℕ → List ℕ → ℕ
retry_after_ms window_ms now [] = window_ms
retry_after_ms window_ms now (score ∷ scores) = oldest score scores + window_ms - now

-- `math.ceil(ms / 1000)`
abbrev pub seconds_of : ℕ → ℕ
seconds_of ms = (ms + 999) / 1000

-- `PEXPIRE` on a sorted set, which is no key when it is empty.
abbrev pub keep_until : ℕ → List ℕ → Option (Expiring (List ℕ))
keep_until time [] = none
keep_until time (score ∷ scores) = some (record { value = score ∷ scores; expires_at = time })

module _ {ℓ} {Double : Type ℓ} (numbers : BucketNumbers Double) where
  -- The tokens after the refill since the last one.
  abbrev pub refilled : ℕ → ℕ → Double → RateLimitKeys Double → Double
  refilled now capacity refill_per_ms keys = numbers.minimum (numbers.number capacity) (
      numbers.add (or_else (numbers.number capacity) (read now keys.bucket_tokens)) (
        numbers.multiply (numbers.number (now - or_else now (read now keys.bucket_timestamp)))
          refill_per_ms))

  abbrev pub bucket_ttl_ms : ℕ → ℕ → Double → ℕ
  bucket_ttl_ms window_ms capacity refill_per_ms = max window_ms (
      numbers.ceiling (
        numbers.multiply (numbers.divide (numbers.number capacity) refill_per_ms)
          (numbers.number 2)))

  -- The keys that the script writes.
  abbrev pub written_keys : ℕ → ℕ → ℕ → List ℕ → Double → RateLimitKeys Double
  written_keys now window_ms ttl scores tokens = record {
    sliding_window = keep_until (now + window_ms) scores;
    bucket_tokens = some (record { value = tokens; expires_at = now + ttl });
    bucket_timestamp = some (record { value = now; expires_at = now + ttl });
  }

  -- The second half of the script, on the bucket, when the window is not full.
  unfoldable pub take_token :
      ℕ → ℕ → ℕ → Double → List ℕ → Double → RateLimitResult × RateLimitKeys Double
  take_token now window_ms ttl refill_per_ms recent tokens =
      let cost = numbers.number 1 in
      if numbers.below tokens cost
      then (
        record {
          allowed = false;
          count = length recent;
          retry_after_seconds =
              seconds_of
                (numbers.ceiling (numbers.divide (numbers.subtract cost tokens) refill_per_ms));
        },
        written_keys now window_ms ttl recent tokens,
      )
      else (
        record { allowed = true; count = length recent + 1; retry_after_seconds = 0 },
        written_keys now window_ms ttl (now ∷ recent) (numbers.subtract tokens cost),
      )

  unfoldable pub rate_limit_script :
      ℕ → ℕ → ℕ → ℕ → Double → RateLimitKeys Double → RateLimitResult × RateLimitKeys Double
  rate_limit_script now window_ms limit capacity refill_per_ms keys =
      let recent = filter (is_recent window_ms now) (or_else [] (read now keys.sliding_window)) in
      if leb limit (length recent)
      then (
        record {
          allowed = false;
          count = length recent;
          retry_after_seconds = seconds_of (retry_after_ms window_ms now recent);
        },
        record keys { sliding_window = keep_until (now + window_ms) recent },
      )
      else take_token now window_ms (bucket_ttl_ms window_ms capacity refill_per_ms) refill_per_ms
          recent (refilled now capacity refill_per_ms keys)

  abbrev pub is_misconfigured : ConsumeRateLimitInput → Bool
  is_misconfigured input = input.limit == 0 || input.window_seconds == 0 || input.burst_limit == 0

  abbrev pub window_ms_of : ConsumeRateLimitInput → ℕ
  window_ms_of input = input.window_seconds * 1000

  abbrev pub refill_per_ms_of : ConsumeRateLimitInput → Double
  refill_per_ms_of input =
      numbers.divide (numbers.number input.limit) (numbers.number (window_ms_of input))

  abbrev pub answered :
      RateLimitResult × RateLimitKeys Double → Outcome (Unit {0}) × RateLimitKeys Double
  answered (result, keys) = (if result.allowed then done tt else failed too_many_requests, keys)

  unfoldable pub consume :
      ConsumeRateLimitInput → ℕ → RateLimitKeys Double → Outcome (Unit {0}) × RateLimitKeys Double
  consume input now keys =
      if is_misconfigured input
      then (failed internal_server_error, keys)
      else answered (
          rate_limit_script now (window_ms_of input) input.limit input.burst_limit
            (refill_per_ms_of input) keys)
