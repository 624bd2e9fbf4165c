-- ===== src/Cache/Hits.antt =====
-- What a hit of the cache may be, and when there is one.
use enterprise_doc_rag.Common.{
  ℕ, ◌+◌, ◌*◌, ◌≤◌, String, ◌≡◌, inl, inr, true, false, not, none, some, List, arith, string_eq,
  list_eq, if◌then◌else◌, Option-cases, all,
}
use enterprise_doc_rag.Config.{Settings}
use enterprise_doc_rag.Retrieval.Filters.{NodeMetadata, SearchFilters, node_matches_filters}
use enterprise_doc_rag.Cache.{
  Qdrant, StoreCall, CacheEntry, CachePoint, holds, scope_conditions, entry_of, unexpired,
  new_point, lookup,
}
use enterprise_doc_rag.Cache.Calls.{CacheCall, StoredIn, AreFresh, run, run-LeftBy}
use enterprise_doc_rag.Cache.Scope.{node_matches_filters_scope}

module _ {Score Vector : Type 0} (settings : Settings) (get_query_embedding : String → Vector)
    (qdrant : Qdrant Score Vector) where
  -- A hit is an unexpired point that the query found.
  lookup-found :
      (question : String) (f : SearchFilters) (now : ℕ) (s : qdrant.State)
      (entry : CacheEntry Score)
      → lookup settings get_query_embedding qdrant question f now s ≡ some entry
      → (p : CachePoint Score Vector) × (settings.semantic_cache_enabled ≡ true)
        × (qdrant.collection_exists s ≡ true)
        × (qdrant.query_points (get_query_embedding question) (scope_conditions f) s ≡ some p)
        × (now ≤ p.expires_at)
        × (entry ≡ entry_of p)
  unfolding lookup
  lookup-found question f now s entry h =
      elim (Option-cases
        (qdrant.query_points (get_query_embedding question) (scope_conditions f) s)) [
          | inl e ↦ absurd (ground (arith, e))
          | inr (p, e) ↦
              let h' : (if not settings.semantic_cache_enabled
                    then none
                    else if not (qdrant.collection_exists s)
                    then none
                    else unexpired now (some p))
                  ≡ some entry =
                rw e at h in
              (p, ground arith, ground arith, e, ground arith, ground arith)
        ]

  module _ (embedding_dimension : ℕ) (calls : List (CacheCall Score)) (empty : qdrant.State)
      (missing : qdrant.collection_exists empty ≡ false) (fresh : AreFresh calls) where
    -- After any calls of the cache, a hit is the answer and the citations of one call of `store`
    -- that has not been invalidated since and has not expired, whose question is similar and whose
    -- filters belong to the same tenant and admit exactly the same nodes.
    pub lookup-StoredIn :
        (question : String) (f : SearchFilters) (now : ℕ) (entry : CacheEntry Score)
        → lookup settings get_query_embedding qdrant question f now
            (run settings get_query_embedding qdrant embedding_dimension calls empty)
          ≡ some entry
        → (c : StoreCall Score) × StoredIn c calls
          × (entry ≡ record { answer = c.answer; citations = c.citations })
          × (now ≤ c.time + settings.semantic_cache_ttl_seconds * 1000000)
          × (qdrant.similar (get_query_embedding question) (get_query_embedding c.question) ≡ true)
          × (c.search_filters.tenant_id ≡ f.tenant_id)
          × ((m : NodeMetadata)
              → node_matches_filters m c.search_filters ≡ node_matches_filters m f)
    lookup-StoredIn question f now entry h =
        let s = run settings get_query_embedding qdrant embedding_dimension calls empty in
        let (p, enabled, there, e, live, g) = lookup-found question f now s entry h in
        let (m, k, close) =
          qdrant.query-found (get_query_embedding question) (scope_conditions f) s p e in
        let l =
          run-LeftBy settings get_query_embedding qdrant embedding_dimension calls empty enabled
            missing fresh in
        let (c, i, q) = l.from_store there p m in
        let k' : all (λ x. holds x (new_point settings get_query_embedding c)) (scope_conditions f)
            ≡ true =
          rw q at k in
        let tenant : c.search_filters.tenant_id ≡ f.tenant_id = ground arith in
        (
          c,
          i,
          rw (g, q),
          rw q at live,
          rw q at close,
          tenant,
          λ n. node_matches_filters_scope c.search_filters f n tenant (ground arith),
        )
