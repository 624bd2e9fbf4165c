-- ===== src/Security/RateLimit/Calls.antt =====
-- Sequences of calls, and which of them fall into a window or a span of seconds.
use enterprise_doc_rag.Common.{
  ℕ, ◌+◌, ◌/◌, String, Bool, true, false, ◌&&◌, List, [], ◌∷◌, ◌==◌, nat_eq, string_eq,
  if◌then◌else◌, ltb, leb,
}
use enterprise_doc_rag.Common.Result.{Result, ok}
use enterprise_doc_rag.Config.{Settings}
use enterprise_doc_rag.Security.RateLimit.Counters.{Redis}
use enterprise_doc_rag.Security.RateLimit.{Admission, allowed, seconds, enforce_rate_limit}

pub record Call : Type 0 where
  pub identifier : String
  pub now : ℕ

abbrev pub is_allowed : Result Admission → Bool
is_allowed (ok allowed) = true
is_allowed _ = false

-- The calls of an identifier in window `w`, for windows of `length` seconds.
abbrev pub in_window : ℕ → String → ℕ → Call → Bool
in_window length i w c = c.identifier == i && (seconds c.now / length == w)

-- The calls of an identifier in the `length` seconds from `a` on.
abbrev pub in_span : ℕ → String → ℕ → Call → Bool
in_span length i a c =
    c.identifier == i && (leb a (seconds c.now) && ltb (seconds c.now) (a + length))

module _ (redis : Redis) (settings : Settings) where
  -- How many of the calls that pass the test `p` are let through, in the order of the calls.
  unfoldable pub admitted : (Call → Bool) → List Call → redis.State → ℕ
  admitted p [] s = 0
  admitted p (c ∷ cs) s =
      let (answer, s') = enforce_rate_limit redis settings c.identifier c.now s in
      (if p c && is_allowed answer then 1 else 0) + admitted p cs s'
