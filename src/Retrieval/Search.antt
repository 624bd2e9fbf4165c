-- ===== src/Retrieval/Search.antt =====
-- core/retrieval/hybrid_retriever.py, postprocessors.py, search_service.py, and api/v1/search.py
-- with schemas/search.py: what is composed of the retrievers and postprocessors of llama_index,
-- which are a parameter.
mod Pipeline
pub mod Served
pub mod Memory
mod Tests
pub use Pipeline.{Llama, SameFile, IsFrom, FoundBy}
use enterprise_doc_rag.Common.{
  ℕ, String, Bool, true, false, Option, none, some, List, [], ◌∷◌, ◌++◌, if◌then◌else◌, ltb,
}
use enterprise_doc_rag.Common.Result.{Result, ok, err, ◌>>=◌}
use enterprise_doc_rag.Config.{Settings}
use enterprise_doc_rag.Security.Keys.{ApiKey}
use enterprise_doc_rag.Security.Scoping.{resolve_scoped_filters}
use enterprise_doc_rag.Retrieval.Filters.{
  NodeWithScore, SearchFilters, build_metadata_filters, retrieve_filtered,
}
use enterprise_doc_rag.Retrieval.Citations.{Citation, build_citations}
use enterprise_doc_rag.Retrieval.Dedup.{postprocess_nodes}

pub record SearchRequest : Type 0 where
  pub query : String
  pub department : Option (List String)
  pub doc_type : Option (List String)
  pub tags : Option (List String)

abbrev pub min : ℕ → ℕ → ℕ
min a b = if ltb b a then b else a

module _ {Score : Type 0} (llama : Llama Score) (settings : Settings) where
  -- A retriever is what it does for a query.
  abbrev Retriever : Type 0
  Retriever = String → Result (List (NodeWithScore Score))

  unfoldable pub filtered_bm25 : SearchFilters → Retriever → Retriever
  filtered_bm25 f bm25 query = do nodes ← bm25 query; ok (retrieve_filtered f nodes)

  -- The BM25 index is there with the size of its corpus, or it has not been built.
  unfoldable pub bm25_retrievers : SearchFilters → Option ℕ → List Retriever
  bm25_retrievers f none = []
  bm25_retrievers f (some corpus) =
      filtered_bm25 f (llama.bm25_retrieve (min settings.hybrid_top_k corpus)) ∷ []

  abbrev pub num_queries : ℕ
  num_queries = if settings.query_rewrite_enabled then settings.num_query_variations else 1

  unfoldable pub build_hybrid_retriever : SearchFilters → Option ℕ → Retriever
  unfolding bm25_retrievers
  build_hybrid_retriever f bm25_index = llama.auto_merge (
      llama.fuse settings.hybrid_top_k num_queries (
        llama.dense_retrieve settings.hybrid_top_k (build_metadata_filters f)
        ∷ bm25_retrievers f bm25_index))

  module _ (lower : String → String) where
    -- The postprocessors, in their order: reranker, compression, deduplication, reordering.
    unfoldable pub build_postprocessors :
        List (String → List (NodeWithScore Score) → Result (List (NodeWithScore Score)))
    build_postprocessors =
        (if settings.reranker_enabled then llama.rerank ∷ [] else [])
        ++ ((if settings.context_compression_enabled then llama.compress ∷ [] else [])
            ++ ((λ query nodes. ok (postprocess_nodes lower nodes)) ∷ llama.reorder ∷ []))

    abbrev pub apply_all :
        List (String → List (NodeWithScore Score) → Result (List (NodeWithScore Score)))
        → String
        → List (NodeWithScore Score)
        → Result (List (NodeWithScore Score))
    apply_all [] query nodes = ok nodes
    apply_all (p ∷ ps) query nodes = p query nodes >>= apply_all ps query

    unfoldable pub run_search :
        String → SearchFilters → Option ℕ → Result (List (NodeWithScore Score))
    unfolding build_hybrid_retriever build_postprocessors
    run_search query f bm25_index = do
      nodes ← build_hybrid_retriever f bm25_index query
      apply_all build_postprocessors query nodes

    unfoldable pub search : SearchRequest → ApiKey → Option ℕ → Result (List (Citation Score))
    unfolding run_search
    search request api_key bm25_index = do
      f ← resolve_scoped_filters api_key request.department request.doc_type request.tags
      nodes ← run_search request.query f bm25_index
      ok (build_citations nodes)
