-- ===== src/Security/RateLimit/Budget.antt =====
-- How many calls the limiter lets through.
use Prim.Native.Nat.{min}
use native.Mathlib.Nat.{mod-lt, div-add-mod'}
use mathlib.Core.Path.{subst, sym}
use enterprise_doc_rag.Common.{
  ℕ, ◌+◌, ◌-◌, ◌*◌, ◌/◌, ◌%◌, ◌≤◌, ◌<◌, ◌≡◌, refl, ◌∙◌, ◌⊎◌, inl, inr, String, Bool, true, false,
  none, some, List, [], ◌∷◌, arith, nat_eq, string_eq, ltb, count_by, Bool-cases,
}
use enterprise_doc_rag.Common.Result.{ok}
use enterprise_doc_rag.Config.{Settings}
use enterprise_doc_rag.Security.RateLimit.Calls.{Call, is_allowed, in_window, in_span, admitted}
use enterprise_doc_rag.Security.RateLimit.Windows.{before_end, after_start, window_of_span}
use enterprise_doc_rag.Security.RateLimit.Counters.{RateKey, Redis, same_key}
use enterprise_doc_rag.Security.RateLimit.{too_many_requests, rate_key, seconds, enforce_rate_limit}

module _ (redis : Redis) (settings : Settings) where
  rate_key_of_window :
      (i : String) (w : ℕ) (c : Call)
      → in_window settings.rate_limit_window_seconds i w c ≡ true
      → ◌≡◌ {A = RateKey}
          (record { identifier = i; window_index = w })
          (rate_key settings c.identifier c.now)
  rate_key_of_window i w c h = ground arith

  same_key_of_window :
      (i : String) (w : ℕ) (c : Call)
      → in_window settings.rate_limit_window_seconds i w c ≡ false
      → same_key
          (record { identifier = i; window_index = w })
          (rate_key settings c.identifier c.now)
        ≡ false
  same_key_of_window i w c h = ground arith

  -- The counter of a window stands at `v`, and does not expire before the window ends.
  pub data Counting (k : RateKey) (v : ℕ) (s : redis.State) : Type 0 where
    unused : v ≡ 0 → redis.entry s k ≡ none → Counting k v s
    used :
        (t : ℕ)
        → 1 ≤ v
        → redis.entry s k ≡ some (record { value = v; deadline = some t })
        → (k.window_index + 1) * settings.rate_limit_window_seconds * 1000 ≤ t
        → Counting k v s

  module _ (enabled : settings.rate_limit_enabled ≡ true)
      (positive : 0 < settings.rate_limit_window_seconds) where
    step_self :
        (i : String) (now v : ℕ) (s : redis.State)
        → Counting (rate_key settings i now) v s
        → (is_allowed (enforce_rate_limit redis settings i now s).0
            ≡ ltb v settings.rate_limit_requests)
          × Counting (rate_key settings i now) (v + 1) (enforce_rate_limit redis settings i now s).1
    unfolding enforce_rate_limit
    step_self i now v s (unused z e) =
        let k = rate_key settings i now in
        (
          ground (arith, redis.incr_value k now s),
          used (now + settings.rate_limit_window_seconds * 1000) (omega arith)
              (ground (
                arith,
                redis.incr_value k now s,
                redis.entry-incr k k now s,
                redis.entry-expire k k settings.rate_limit_window_seconds now
                    (redis.incr k now s).1,
              ))
              (after_start now settings.rate_limit_window_seconds),
        )
    step_self i now v s (used t pos e h) =
        let k = rate_key settings i now in
        let alive = before_end now settings.rate_limit_window_seconds positive in
        (
          ground (arith, redis.incr_value k now s),
          used t (omega arith)
              (ground (arith, redis.incr_value k now s, redis.entry-incr k k now s)) h,
        )

    -- A call in another window, or of another identifier, leaves the counter as it is.
    entry_other :
        (i : String) (now : ℕ) (j : RateKey) (s : redis.State)
        → same_key j (rate_key settings i now) ≡ false
        → redis.entry (enforce_rate_limit redis settings i now s).1 j ≡ redis.entry s j
    unfolding enforce_rate_limit
    entry_other i now j s other =
        let k = rate_key settings i now in
        ground (
          arith,
          redis.entry-incr k j now s,
          redis.entry-expire k j settings.rate_limit_window_seconds now (redis.incr k now s).1,
        )

    step_other :
        (i : String) (now v : ℕ) (j : RateKey) (s : redis.State)
        → same_key j (rate_key settings i now) ≡ false
        → Counting j v s
        → Counting j v (enforce_rate_limit redis settings i now s).1
    step_other i now v j s other (unused z e) = unused z (entry_other i now j s other ∙ e)
    step_other i now v j s other (used t pos e h) = used t pos (entry_other i now j s other ∙ e) h

    -- Of the calls of one identifier in one window, exactly so many are let through as there are,
    -- up to what is left of the limit; whatever calls of others stand between them, and in
    -- whatever order of times.
    pub admitted-in_window :
        (i : String) (w v : ℕ) (calls : List Call) (s : redis.State)
        → Counting (record { identifier = i; window_index = w }) v s
        → admitted redis settings (in_window settings.rate_limit_window_seconds i w) calls s
          ≡ min
              (count_by (in_window settings.rate_limit_window_seconds i w) calls)
              (settings.rate_limit_requests - v)
    unfolding admitted
    admitted-in_window i w v [] s counting = omega arith
    admitted-in_window i w v (c ∷ cs) s counting =
        elim (Bool-cases (in_window settings.rate_limit_window_seconds i w c)) [
          | inl here ↦
              let k : RateKey = record { identifier = i; window_index = w } in
              let same : k ≡ rate_key settings c.identifier c.now = rate_key_of_window i w c here in
              let (answer, after) =
                step_self c.identifier c.now v s (subst (λ x. Counting x v s) same counting) in
              let after' : Counting k (v + 1)
                  (enforce_rate_limit redis settings c.identifier c.now s).1 =
                subst
                  (λ x.
                    Counting x (v + 1) (enforce_rate_limit redis settings c.identifier c.now s).1)
                  (sym same) after in
              rw (here, answer) (ground (arith, admitted-in_window i w (v + 1) cs _ after'))
          | inr elsewhere ↦ rw elsewhere (
              omega (
                arith,
                admitted-in_window i w v cs _ (
                    step_other c.identifier c.now v _ s (same_key_of_window i w c elsewhere)
                      counting),
              ))
        ]

    admitted_split :
        (p q r : Call → Bool)
        → ((c : Call) → p c ≡ true → (q c ≡ true) ⊎ (r c ≡ true))
        → (calls : List Call) (s : redis.State)
        → admitted redis settings p calls s
          ≤ admitted redis settings q calls s + admitted redis settings r calls s
    unfolding admitted
    admitted_split p q r h [] s = omega arith
    admitted_split p q r h (c ∷ cs) s = ground (
      arith,
      h c,
      admitted_split p q r h cs (enforce_rate_limit redis settings c.identifier c.now s).1,
    )

    in_window_of_span :
        (i : String) (a : ℕ) (c : Call)
        → in_span settings.rate_limit_window_seconds i a c ≡ true
        → (in_window settings.rate_limit_window_seconds i (a / settings.rate_limit_window_seconds) c
            ≡ true)
          ⊎ (in_window settings.rate_limit_window_seconds i
                (a / settings.rate_limit_window_seconds + 1)
                c
              ≡ true)
    in_window_of_span i a c h =
        ground (arith, window_of_span a (seconds c.now) settings.rate_limit_window_seconds positive)

    -- In any span as long as a window, starting at any second, at most twice the limit of calls of
    -- one identifier is let through, if no call of it was counted before in the two windows
    -- that the span touches.
    pub admitted-in_span :
        (i : String) (a : ℕ) (calls : List Call) (s : redis.State)
        → redis.entry s
            (record { identifier = i; window_index = a / settings.rate_limit_window_seconds })
          ≡ none
        → redis.entry s
            (record { identifier = i; window_index = a / settings.rate_limit_window_seconds + 1 })
          ≡ none
        → admitted redis settings (in_span settings.rate_limit_window_seconds i a) calls s
          ≤ 2 * settings.rate_limit_requests
    admitted-in_span i a calls s e f = omega (
      arith,
      admitted_split (in_span settings.rate_limit_window_seconds i a)
          (in_window settings.rate_limit_window_seconds i (a / settings.rate_limit_window_seconds))
          (in_window settings.rate_limit_window_seconds i
            (a / settings.rate_limit_window_seconds + 1))
          (in_window_of_span i a) calls s,
      admitted-in_window i (a / settings.rate_limit_window_seconds) 0 calls s (unused refl e),
      admitted-in_window i (a / settings.rate_limit_window_seconds + 1) 0 calls s (unused refl f),
    )

    -- The 429 answer says how long to wait: at least a second, at most a window, and exactly until
    -- the next window starts.
    pub retry_after :
        (i : String) (now n : ℕ) (s : redis.State)
        → (enforce_rate_limit redis settings i now s).0 ≡ ok (too_many_requests n)
        → (1 ≤ n)
          × (n ≤ settings.rate_limit_window_seconds)
          × (seconds now + n
              ≡ (seconds now / settings.rate_limit_window_seconds + 1)
                * settings.rate_limit_window_seconds)
    unfolding enforce_rate_limit
    retry_after i now n s h =
        let wait : n
            ≡ settings.rate_limit_window_seconds
              - seconds now % settings.rate_limit_window_seconds =
          ground arith in
        let below = mod-lt (seconds now) positive in
        (
          omega arith,
          omega arith,
          grind (arith, div-add-mod' (seconds now) settings.rate_limit_window_seconds),
        )
