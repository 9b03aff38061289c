-- ===== src/Limiter.antt =====
-- internal/vault/ratelimit.go: one token bucket for each credential. The clock is Go's monotonic one: it
-- does not run backwards.
pub mod Burst
use joyvend_secretvault.Shared.{
  ℕ, ◌-◌, Bool, true, false, Option, none, some, ◌==◌, if◌then◌else◌, ℤ, pos_part,
}
use joyvend_secretvault.Text.{Bytes}
use joyvend_secretvault.Maps.{Map, lookup, insert}

-- The operations of the machine on float64 values, each of which is its 64 bits, as a number;
-- `seconds` is that of a time.Duration.
pub record Floats : Type 0 where
  pub of_int : ℕ → ℕ
  pub add : ℕ → ℕ → ℕ
  pub sub : ℕ → ℕ → ℕ
  pub mul : ℕ → ℕ → ℕ
  pub div : ℕ → ℕ → ℕ
  pub less : ℕ → ℕ → Bool
  pub seconds : ℕ → ℕ

-- The tokens are a float64.
pub record Bucket : Type 0 where
  pub tokens : ℕ
  pub last : ℕ

abbrev pub Limiter : Type 0
Limiter = Map Bucket

module _ (f : Floats) where
  -- `bk == nil` starts with a full bucket.
  unfoldable pub bucket_or_full : ℕ → ℕ → Option Bucket → Bucket
  bucket_or_full per_min now none = record { tokens = f.of_int per_min; last = now }
  bucket_or_full per_min now (some b) = b

  -- Tokens in a second
  abbrev pub per_second : ℕ → ℕ
  per_second per_min = f.div (f.of_int per_min) (f.of_int 60)

  -- The refill, up to the capacity.
  unfoldable pub refill : ℕ → ℕ → Bucket → Bucket
  refill per_min now b =
      let tokens = f.add b.tokens (f.mul (f.seconds (now - b.last)) (per_second per_min)) in
      let capacity = f.of_int per_min in
      record { tokens = if f.less capacity tokens then capacity else tokens; last = now }

  unfoldable pub take_token : Bucket → Bucket × Bool
  take_token b =
      if f.less b.tokens (f.of_int 1)
      then (b, false)
      else (record b { tokens = f.sub b.tokens (f.of_int 1) }, true)

  -- `allow` at time `now`, for a rate that is positive.
  unfoldable pub allow_positive : Bytes → ℕ → ℕ → Limiter → Limiter × Bool
  allow_positive name per_min now l =
      let (b, allowed) =
        take_token (refill per_min now (bucket_or_full per_min now (lookup name l))) in
      (insert name b l, allowed)

  unfoldable pub allow : Bytes → ℤ → ℕ → Limiter → Limiter × Bool
  allow name per_min now l =
      if pos_part per_min == 0 then (l, true) else allow_positive name (pos_part per_min) now l
