-- ===== src/Notifier/RateLimit.antt =====
-- internal/notifier/ratelimit.go. Times and durations are nanoseconds, times from Go's zero time.
pub mod Sliding
mod Tests
use blazelog.Base.{
  ℕ, zero, suc, ◌+◌, ◌-◌, Bool, true, false, List, [], ◌∷◌, ◌++◌, length, ltb, leb, if◌then◌else◌,
}
use blazelog.Base.Int.{ℤ, pos, or_default}

pub record RateLimitConfig : Type 0 where
  pub max_per_window : ℤ
  pub window : ℤ
  pub enabled : Bool

unfoldable pub default_rate_limit_config : RateLimitConfig
default_rate_limit_config = record {
  max_per_window = pos 10;
  window = pos 60_000_000_000;
  enabled = true;
}

pub record RateLimiter : Type 0 where
  pub max_per_window : ℕ
  pub window : ℕ
  pub timestamps : List ℕ
  pub dropped : ℕ
  pub enabled : Bool

unfoldable pub new_rate_limiter : RateLimitConfig → RateLimiter
new_rate_limiter config = record {
  max_per_window = or_default config.max_per_window 10;
  window = or_default config.window 60_000_000_000;
  timestamps = [];
  dropped = 0;
  enabled = config.enabled;
}

-- `cleanup` removes the leading timestamps that are before the cutoff.
unfoldable pub expire : ℕ → List ℕ → List ℕ
expire cutoff [] = []
expire cutoff (t ∷ ts) = let rest = expire cutoff ts in if ltb t cutoff then rest else t ∷ ts

unfoldable pub allow : RateLimiter → ℕ → RateLimiter × Bool
allow r now =
    let recent = expire (now - r.window) r.timestamps in
    if r.enabled
    then (if leb r.max_per_window (length recent)
        then (record r { timestamps = recent; dropped = r.dropped + 1 }, false)
        else (record r { timestamps = recent ++ now ∷ [] }, true))
    else (r, true)

-- `timestamps[:len(timestamps)-1]`, of a slice that is not empty.
abbrev pub without_last : List ℕ → List ℕ
without_last [] = []
without_last (t ∷ []) = []
without_last (t ∷ u ∷ ts) = t ∷ without_last (u ∷ ts)

unfoldable pub release : RateLimiter → RateLimiter
release r = record r { timestamps = without_last r.timestamps }

unfoldable pub reset : RateLimiter → RateLimiter
reset r = record r { timestamps = []; dropped = 0 }

pub record RateLimitStats : Type 0 where
  pub dropped : ℕ
  pub current_count : ℕ
  pub max_per_window : ℕ
  pub window : ℕ
  pub enabled : Bool

unfoldable pub stats : RateLimiter → RateLimitStats
stats r = record {
  dropped = r.dropped;
  current_count = length r.timestamps;
  max_per_window = r.max_per_window;
  window = r.window;
  enabled = r.enabled;
}
