-- ===== src/Security/RateLimit/Tests.antt =====
-- Three calls against a limit of two in a minute, on a Redis in memory.
use Prim.Native.Nat.{min}
use enterprise_doc_rag.Common.{
  ℕ, ◌-◌, ◌*◌, ◌≤◌, ◌≡◌, refl, List, [], ◌∷◌, nat_eq, string_eq, arith, count_by, Option,
}
use enterprise_doc_rag.Common.Result.{ok}
use enterprise_doc_rag.Config.{Settings, default_settings}
use enterprise_doc_rag.Security.RateLimit.Counters.{RateKey, Entry}
use enterprise_doc_rag.Security.RateLimit.Memory.{memory_redis, empty}
use enterprise_doc_rag.Security.RateLimit.{too_many_requests, enforce_rate_limit}
use enterprise_doc_rag.Security.RateLimit.Calls.{Call, in_window, in_span, admitted}
use enterprise_doc_rag.Security.RateLimit.Budget.{unused, admitted-in_window, admitted-in_span}

abbrev settings : Settings
settings = record default_settings { rate_limit_requests = 2 }

abbrev at : ℕ → Call
at now = record { identifier = "chat:1"; now = now }

abbrev other : ℕ → Call
other now = record { identifier = "search:1"; now = now }

abbrev calls : List Call
calls = at 61000 ∷ other 61500 ∷ at 62000 ∷ at 70000 ∷ at 121000 ∷ []

two_of_three : admitted memory_redis settings (in_window 60 "chat:1" 1) calls empty ≡ 2
unfolding admitted enforce_rate_limit string_eq nat_eq
two_of_three = refl

abbrev full : RateKey → Option Entry
full =
    unfold enforce_rate_limit string_eq nat_eq in
    (enforce_rate_limit memory_redis settings "chat:1" 62000
      (enforce_rate_limit memory_redis settings "chat:1" 61000 empty).1).1

third_call :
    (enforce_rate_limit memory_redis settings "chat:1" 70000 full).0 ≡ ok (too_many_requests 50)
unfolding enforce_rate_limit string_eq nat_eq
third_call = refl

admitted-in_window_example :
    admitted memory_redis settings (in_window 60 "chat:1" 1) calls empty
    ≡ min (count_by (in_window 60 "chat:1" 1) calls) (2 - 0)
admitted-in_window_example =
    admitted-in_window memory_redis settings refl (omega arith) "chat:1" 1 0 calls empty
      (unused refl refl)

admitted-in_span_example :
    admitted memory_redis settings (in_span 60 "chat:1" 70) calls empty ≤ 2 * 2
admitted-in_span_example =
    admitted-in_span memory_redis settings refl (omega arith) "chat:1" 70 calls empty refl refl
