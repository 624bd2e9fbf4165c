-- ===== src/Security/RateLimit/Memory.antt =====
-- A Redis of the kind that the limiter assumes: the entries as a function of the key.
use enterprise_doc_rag.Common.{◌+◌, ◌*◌, refl, Option, none, if◌then◌else◌}
use enterprise_doc_rag.Security.RateLimit.Counters.{
  RateKey, Entry, Redis, same_key, live, counted, with_deadline,
}

abbrev pub memory_redis : Redis
memory_redis = record {
  State = RateKey → Option Entry;
  entry = λ s k. s k;
  incr = λ k now s. (
    (counted (live now (s k))).value,
    λ j. if same_key j k then Option.some (counted (live now (s k))) else s j,
  );
  expire = λ k secs now s j.
      if same_key j k then with_deadline (now + secs * 1000) (live now (s k)) else s j;
  incr_value = λ k now s. refl;
  entry-incr = λ k j now s. refl;
  entry-expire = λ k j secs now s. refl;
}

abbrev pub empty : RateKey → Option Entry
empty k = none
