-- ===== src/Cache.antt =====
-- core/cache/semantic_cache.py. The time of a call, in microseconds, and the id that `uuid4` draws
-- are arguments. The scope key is kept as the value whose JSON text the code stores.
mod Collection
pub mod Calls
pub mod Scope
pub mod Hits
pub mod Memory
mod Tests
pub use Collection.{
  same_scope, Qdrant, Condition, tenant_id_is, filter_scope_is, source_document_ids_any, CachePoint,
  ScopeKey, holds,
}
use enterprise_doc_rag.Common.{
  ℕ, ◌+◌, ◌*◌, String, Bool, true, false, not, Option, none, some, List, [], ◌∷◌, if◌then◌else◌,
  ltb,
}
use enterprise_doc_rag.Common.Sorting.{sorted}
use enterprise_doc_rag.Common.Result.{Result, Error, ok, err}
use enterprise_doc_rag.Config.{Settings}
use enterprise_doc_rag.Retrieval.Collections.{Collections, ensure_collection}
use enterprise_doc_rag.Retrieval.Filters.{SearchFilters, or_empty}
use enterprise_doc_rag.Retrieval.Citations.{Citation}

pub record CacheEntry (Score : Type 0) : Type 0 where
  pub answer : String
  pub citations : List (Citation Score)

-- `_filter_scope_key`
abbrev pub filter_scope_key : SearchFilters → ScopeKey
filter_scope_key f = record {
  department = sorted (or_empty f.department);
  doc_type = sorted (or_empty f.doc_type);
  tags = sorted (or_empty f.tags);
}

abbrev pub scope_conditions : SearchFilters → List Condition
scope_conditions f = tenant_id_is f.tenant_id ∷ filter_scope_is (filter_scope_key f) ∷ []

module _ {Score Vector : Type 0} where
  abbrev pub entry_of : CachePoint Score Vector → CacheEntry Score
  entry_of p = record { answer = p.answer; citations = p.citations }

  abbrev pub unexpired : ℕ → Option (CachePoint Score Vector) → Option (CacheEntry Score)
  unexpired now none = none
  unexpired now (some p) = if ltb p.expires_at now then none else some (entry_of p)

  module _ (qdrant : Qdrant Score Vector) where
    abbrev pub collections_of : Collections (CachePoint Score Vector)
    collections_of = record {
      State = qdrant.State;
      collection_exists = qdrant.collection_exists;
      points = qdrant.points;
      create_collection = qdrant.create_collection;
      create_payload_index = qdrant.create_payload_index;
      exists-create = qdrant.exists-create;
      points-create = qdrant.points-create;
      exists-index = qdrant.exists-index;
      points-index = qdrant.points-index;
    }

    unfoldable pub invalidate_for_document : String → qdrant.State → qdrant.State
    invalidate_for_document document_id s =
        if not (qdrant.collection_exists s)
        then s
        else qdrant.delete (source_document_ids_any (document_id ∷ []) ∷ []) s

-- Where a call of `store` raises: before the collection is there; when it has been made if it was
-- missing, but not its indexes; when it is there, but the point is not; or when the point is stored
-- and its answer lost.
pub data StoreFault : Type 0 where
  in_collection in_indexes in_upsert after_upsert : Error → StoreFault

-- The arguments of `store` besides the collection.
pub record StoreCall (Score : Type 0) : Type 0 where
  pub new_id : ℕ
  pub time : ℕ
  pub question : String
  pub answer : String
  pub citations : List (Citation Score)
  pub search_filters : SearchFilters
  pub source_document_ids : List String

module _ {Score Vector : Type 0} (settings : Settings) (get_query_embedding : String → Vector) where
  abbrev pub new_point : StoreCall Score → CachePoint Score Vector
  new_point c = record {
    id = c.new_id;
    vector = get_query_embedding c.question;
    question = c.question;
    answer = c.answer;
    citations = c.citations;
    tenant_id = c.search_filters.tenant_id;
    filter_scope = filter_scope_key c.search_filters;
    source_document_ids = c.source_document_ids;
    created_at = c.time;
    expires_at = c.time + settings.semantic_cache_ttl_seconds * 1000000;
  }

  module _ (qdrant : Qdrant Score Vector) where
    unfoldable pub lookup : String → SearchFilters → ℕ → qdrant.State → Option (CacheEntry Score)
    lookup question search_filters now s =
        if not settings.semantic_cache_enabled
        then none
        else if not (qdrant.collection_exists s)
        then none
        else unexpired now
            (qdrant.query_points (get_query_embedding question) (scope_conditions search_filters) s)

    unfoldable pub store : ℕ → StoreCall Score → qdrant.State → qdrant.State
    store embedding_dimension c s =
        if not settings.semantic_cache_enabled
        then s
        else qdrant.upsert (new_point c)
            (ensure_collection (collections_of qdrant) embedding_dimension s)

    -- A call of `store` in which a call of Qdrant or of the embedding model may raise.
    abbrev pub stored :
        Option StoreFault → ℕ → StoreCall Score → qdrant.State → Result (Unit {0}) × qdrant.State
    stored none embedding_dimension c s = (
      ok tt,
      qdrant.upsert (new_point c) (ensure_collection (collections_of qdrant) embedding_dimension s),
    )
    stored (some (in_collection e)) embedding_dimension c s = (err e, s)
    stored (some (in_indexes e)) embedding_dimension c s = (
      err e,
      if qdrant.collection_exists s then s else qdrant.create_collection embedding_dimension s,
    )
    stored (some (in_upsert e)) embedding_dimension c s =
        (err e, ensure_collection (collections_of qdrant) embedding_dimension s)
    stored (some (after_upsert e)) embedding_dimension c s = (
      err e,
      qdrant.upsert (new_point c) (ensure_collection (collections_of qdrant) embedding_dimension s),
    )

    unfoldable pub try_store :
        Option StoreFault → ℕ → StoreCall Score → qdrant.State → Result (Unit {0}) × qdrant.State
    try_store fault embedding_dimension c s =
        if not settings.semantic_cache_enabled
        then (ok tt, s)
        else stored fault embedding_dimension c s
