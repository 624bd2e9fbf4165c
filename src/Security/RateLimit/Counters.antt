-- ===== src/Security/RateLimit/Counters.antt =====
-- What the rate limiter relies on of Redis: `incr` counts atomically, starting from 0 at a key that
-- is missing or has expired, and keeps the expiry of a live key; `expire` gives a live key a
-- deadline. A key is live before its deadline.
use enterprise_doc_rag.Common.{
  ℕ, ◌+◌, ◌*◌, String, ◌≡◌, Bool, true, ◌&&◌, Option, none, some, ◌==◌, nat_eq, string_eq,
  if◌then◌else◌, ltb,
}

pub record RateKey : Type 0 where
  pub identifier : String
  pub window_index : ℕ

abbrev pub same_key : RateKey → RateKey → Bool
same_key a b = a.identifier == b.identifier && a.window_index == b.window_index

pub record Entry : Type 0 where
  pub value : ℕ
  pub deadline : Option ℕ

abbrev pub is_live : ℕ → Option ℕ → Bool
is_live now none = true
is_live now (some t) = ltb now t

-- The entry of a key as it is seen at a time.
abbrev pub live : ℕ → Option Entry → Option Entry
live now none = none
live now (some e) = if is_live now e.deadline then some e else none

abbrev pub counted : Option Entry → Entry
counted none = record { value = 1; deadline = none }
counted (some e) = record e { value = e.value + 1 }

abbrev pub with_deadline : ℕ → Option Entry → Option Entry
with_deadline t none = none
with_deadline t (some e) = some (record e { deadline = some t })

pub record Redis : Type 1 where
  pub State : Type 0
  pub entry : State → RateKey → Option Entry
  pub incr : RateKey → ℕ → State → ℕ × State
  pub expire : RateKey → ℕ → ℕ → State → State
  pub incr_value :
      (k : RateKey) (now : ℕ) (s : State)
      → (incr k now s).0 ≡ (counted (live now (entry s k))).value
  pub entry-incr :
      (k j : RateKey) (now : ℕ) (s : State)
      → entry (incr k now s).1 j
        ≡ (if same_key j k then some (counted (live now (entry s k))) else entry s j)
  pub entry-expire :
      (k j : RateKey) (secs now : ℕ) (s : State)
      → entry (expire k secs now s) j ≡ (
          if same_key j k
          then with_deadline (now + secs * 1000) (live now (entry s k))
          else entry s j)
