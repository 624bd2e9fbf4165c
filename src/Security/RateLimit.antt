-- ===== src/Security/RateLimit.antt =====
-- core/security/rate_limit.py: a fixed-window counter in Redis. Times are milliseconds, so that
-- `int(time.time())` is `now / 1000`; one clock serves the API and Redis. The text of a key is
-- kept as its two parts.
pub mod Counters
pub mod Calls
pub mod Windows
pub mod Budget
pub mod Memory
mod Tests
use enterprise_doc_rag.Common.{
  ℕ, ◌+◌, ◌-◌, ◌*◌, ◌/◌, ◌%◌, String, Bool, true, false, not, ◌==◌, nat_eq, string_eq,
  if◌then◌else◌, ltb,
}
use enterprise_doc_rag.Common.Result.{Result, ok, err, zero_division}
use enterprise_doc_rag.Config.{Settings}
use enterprise_doc_rag.Security.RateLimit.Counters.{RateKey, Redis}

-- How a call of `enforce_rate_limit` ends: it returns, or it raises the 429 answer, whose header
-- `Retry-After` has the number.
pub data Admission : Type 0 where
  allowed : Admission
  too_many_requests : ℕ → Admission

abbrev pub seconds : ℕ → ℕ
seconds now = now / 1000

abbrev pub rate_key : Settings → String → ℕ → RateKey
rate_key settings identifier now = record {
  identifier = identifier;
  window_index = seconds now / settings.rate_limit_window_seconds;
}

module _ (redis : Redis) (settings : Settings) where
  -- From the answer of `incr` on.
  check_count : ℕ → RateKey → ℕ → redis.State → Result Admission × redis.State
  check_count count key now s =
      let s' =
        if count == 1 then redis.expire key settings.rate_limit_window_seconds now s else s in
      if ltb settings.rate_limit_requests count
      then (
        ok (
            too_many_requests (
              settings.rate_limit_window_seconds
              - (seconds now % settings.rate_limit_window_seconds))),
        s',
      )
      else (ok allowed, s')

  unfoldable pub enforce_rate_limit : String → ℕ → redis.State → Result Admission × redis.State
  unfolding check_count
  enforce_rate_limit identifier now s =
      if not settings.rate_limit_enabled
      then (ok allowed, s)
      else if settings.rate_limit_window_seconds == 0
      then (err zero_division, s)
      else let key = rate_key settings identifier now in
        let (count, s') = redis.incr key now s in check_count count key now s'
