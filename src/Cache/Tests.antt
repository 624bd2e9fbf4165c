-- ===== src/Cache/Tests.antt =====
-- An answer is cached, served again, and gone once a document that it cites changes.
use enterprise_doc_rag.Common.{
  ℕ, ◌+◌, ◌*◌, ◌≤◌, String, ◌≡◌, ◌≢◌, refl, true, Option, none, some, List, [], ◌∷◌, ◌==◌,
  string_eq, nat_eq, list_eq,
}
use enterprise_doc_rag.Config.{default_settings as settings}
use enterprise_doc_rag.Retrieval.Filters.{NodeMetadata, SearchFilters, node_matches_filters}
use enterprise_doc_rag.Retrieval.Collections.{ensure_collection}
use enterprise_doc_rag.Cache.{
  StoreCall, CacheEntry, CachePoint, lookup, store, invalidate_for_document,
}
use enterprise_doc_rag.Cache.Calls.{
  CacheCall, StoredIn, stored, invalidated, before_invalidation, LeftBy, run-LeftBy, run,
}
use enterprise_doc_rag.Cache.Hits.{lookup-StoredIn}
use enterprise_doc_rag.Cache.Memory.{memory_qdrant}

abbrev embedding : String → String
embedding text = text

abbrev tags : List String → SearchFilters
tags ts = record { tenant_id = "acme"; department = none; doc_type = none; tags = some ts }

abbrev asked : StoreCall ℕ
asked = record {
  new_id = 1;
  time = 5;
  question = "How many days of leave?";
  answer = "25 [1]";
  citations = [];
  search_filters = tags ("hr" ∷ "leave" ∷ []);
  source_document_ids = "7" ∷ [];
}

abbrev calls : List (CacheCall ℕ)
calls = stored asked ∷ invalidated "7" ∷ []

abbrev entry : CacheEntry ℕ
entry = record { answer = "25 [1]"; citations = [] }

abbrev state_after : List (CacheCall ℕ) → Option (List (CachePoint ℕ String))
state_after cs = run settings embedding memory_qdrant 1536 cs none

hit :
    lookup settings embedding memory_qdrant "How many days of leave?"
      (tags ("leave" ∷ "hr" ∷ []))
      6
      (state_after calls)
    ≡ some entry
unfolding lookup store ensure_collection invalidate_for_document string_eq list_eq nat_eq
hit = refl

other_tags :
    lookup settings embedding memory_qdrant "How many days of leave?"
      (tags ("hr" ∷ []))
      6
      (state_after calls)
    ≡ none
unfolding lookup store ensure_collection invalidate_for_document string_eq list_eq nat_eq
other_tags = refl

stale :
    lookup settings embedding memory_qdrant "How many days of leave?"
      (tags ("leave" ∷ "hr" ∷ []))
      6
      (state_after (invalidated "7" ∷ calls))
    ≡ none
unfolding lookup store ensure_collection invalidate_for_document string_eq list_eq nat_eq
stale = refl

fresh : Unit {0} × ((d : StoreCall ℕ) → StoredIn d (invalidated "7" ∷ []) → d.new_id ≢ 1)
fresh = (tt, λ d i. elim i [ before_invalidation _ h j ↦ elim j [ ] ])

lookup-StoredIn_example :
    (c : StoreCall ℕ) × StoredIn c calls
    × (entry ≡ record { answer = c.answer; citations = c.citations })
    × (6 ≤ c.time + 86400 * 1000000)
    × (("How many days of leave?" == c.question) ≡ true)
    × (c.search_filters.tenant_id ≡ "acme")
    × ((m : NodeMetadata)
        → node_matches_filters m c.search_filters
          ≡ node_matches_filters m (tags ("leave" ∷ "hr" ∷ [])))
lookup-StoredIn_example =
    lookup-StoredIn settings embedding memory_qdrant 1536 calls none refl fresh
      "How many days of leave?" (tags ("leave" ∷ "hr" ∷ [])) 6 entry hit

run-LeftBy_example : LeftBy settings embedding memory_qdrant 1536 calls (state_after calls)
run-LeftBy_example = run-LeftBy settings embedding memory_qdrant 1536 calls none refl refl fresh
