-- ===== src/Retrieval/Search/Served.antt =====
-- What a search may answer with: nodes that the key of the request may see.
use enterprise_doc_rag.Common.{
  ℕ, ◌+◌, get_elem?, String, ◌≡◌, refl, sym, ap, ◌∙◌, inl, inr, true, Option, none, some, List, [],
  ◌∷◌, Bool-cases, All, Member, Member-select,
}
use enterprise_doc_rag.Common.Result.{Result, ok, first_returned}
use enterprise_doc_rag.Config.{Settings}
use enterprise_doc_rag.Security.Keys.{ApiKey}
use enterprise_doc_rag.Security.Scoping.{resolve_scoped_filters}
use enterprise_doc_rag.Security.Scoping.Authorized.{
  IsAuthorized, IsAuthorized-of_matches, resolve_scoped_filters-IsScoped,
}
use enterprise_doc_rag.Retrieval.Filters.{
  NodeMetadata, NodeWithScore, SearchFilters, node_matches_filters, build_metadata_filters,
  retrieve_filtered,
}
use enterprise_doc_rag.Retrieval.Filters.Agreement.{admits-build_metadata_filters}
use enterprise_doc_rag.Retrieval.Citations.{Citation, build_citations}
use enterprise_doc_rag.Retrieval.Citations.Numbered.{Cites, build_citations-cited}
use enterprise_doc_rag.Retrieval.Dedup.{postprocess_nodes}
use enterprise_doc_rag.Retrieval.Search.{
  Llama, SearchRequest, SameFile, IsFrom, min, num_queries, filtered_bm25, bm25_retrievers,
  build_hybrid_retriever, build_postprocessors, apply_all, run_search, search,
}

SameFile-matches :
    (m n : NodeMetadata) (f : SearchFilters)
    → SameFile m n
    → node_matches_filters n f ≡ true
    → node_matches_filters m f ≡ true
unfolding node_matches_filters
SameFile-matches m n f s h = rw (s.tenant_id, s.department, s.doc_type, s.tags) h

module _ {Score : Type 0} where
  abbrev Matches : SearchFilters → List (NodeWithScore Score) → Type 0
  Matches f nodes =
      (x : NodeWithScore Score) → Member x nodes → node_matches_filters x.metadata f ≡ true

  Matches-IsFrom :
      (f : SearchFilters) (nodes result : List (NodeWithScore Score))
      → IsFrom nodes result
      → Matches f nodes
      → Matches f result
  Matches-IsFrom f nodes result from h x m =
      let (y, n, s) = from x m in SameFile-matches x.metadata y.metadata f s (h y n)

  postprocess_nodes-IsFrom :
      (lower : String → String) (nodes : List (NodeWithScore Score))
      → IsFrom nodes (postprocess_nodes lower nodes)
  postprocess_nodes-IsFrom lower [] x m = elim m [ ]
  postprocess_nodes-IsFrom lower (n ∷ nodes) x (inl e) = (
    n,
    inl refl,
    record {
      tenant_id = ap (λ y. y.metadata.tenant_id) e;
      department = ap (λ y. y.metadata.department) e;
      doc_type = ap (λ y. y.metadata.doc_type) e;
      tags = ap (λ y. y.metadata.tags) e;
    },
  )
  postprocess_nodes-IsFrom lower (n ∷ nodes) x (inr m) =
      let (y, k, s) = postprocess_nodes-IsFrom lower nodes x m in (y, inr k, s)

module _ {Score : Type 0} (llama : Llama Score) (settings : Settings) where
  filtered_bm25-Matches :
      (f : SearchFilters) (bm25 : String → Result (List (NodeWithScore Score))) (query : String)
      (nodes : List (NodeWithScore Score))
      → filtered_bm25 llama settings f bm25 query ≡ ok nodes
      → Matches f nodes
  unfolding filtered_bm25 retrieve_filtered
  filtered_bm25-Matches f bm25 query nodes h x m =
      let (raw, h1, e) = first_returned _ (bm25 query) h in
      let same : nodes ≡ retrieve_filtered f raw = cc h1 in
      let m' : Member x (retrieve_filtered f raw) = rw same at m in
      (Member-select (λ n. node_matches_filters n.metadata f) x raw m').1

  retrievers-Matches :
      (f : SearchFilters) (bm25_index : Option ℕ) (r : String → Result (List (NodeWithScore Score)))
      → Member r (
          llama.dense_retrieve settings.hybrid_top_k (build_metadata_filters f)
          ∷ bm25_retrievers llama settings f bm25_index)
      → (query : String) (nodes : List (NodeWithScore Score)) → r query ≡ ok nodes
      → Matches f nodes
  unfolding bm25_retrievers
  retrievers-Matches f bm25_index r (inl e) query nodes h x m =
      sym (admits-build_metadata_filters llama.matching x.metadata f)
      ∙ llama.dense-admits settings.hybrid_top_k (build_metadata_filters f) query nodes (rw e at h)
          x m
  retrievers-Matches f none r (inr m) query nodes h x n = elim m [ ]
  retrievers-Matches f (some corpus) r (inr (inl e)) query nodes h x n =
      filtered_bm25-Matches f (llama.bm25_retrieve (min settings.hybrid_top_k corpus)) query nodes
        (rw e at h) x n
  retrievers-Matches f (some corpus) r (inr (inr m)) query nodes h x n = elim m [ ]

  build_hybrid_retriever-Matches :
      (f : SearchFilters) (bm25_index : Option ℕ) (query : String)
      (nodes : List (NodeWithScore Score))
      → build_hybrid_retriever llama settings f bm25_index query ≡ ok nodes
      → Matches f nodes
  unfolding build_hybrid_retriever
  build_hybrid_retriever-Matches f bm25_index query nodes h =
      let retrievers =
        llama.dense_retrieve settings.hybrid_top_k (build_metadata_filters f)
        ∷ bm25_retrievers llama settings f bm25_index in
      let (before, e, from) =
        llama.auto_merge-IsFrom
          (llama.fuse settings.hybrid_top_k (num_queries llama settings) retrievers) query nodes
          h in
      Matches-IsFrom f before nodes from (λ x m.
        let (r, q, ns, y, k, g, n, s) =
          llama.fuse-found settings.hybrid_top_k (num_queries llama settings) retrievers query
            before e x m in
        SameFile-matches x.metadata y.metadata f s (retrievers-Matches f bm25_index r k q ns g y n))

  module _ (lower : String → String) where
    -- What the next postprocessor may make of nodes.
    abbrev Shortens :
        (String → List (NodeWithScore Score) → Result (List (NodeWithScore Score))) → Type 0
    Shortens p =
        (query : String) (nodes result : List (NodeWithScore Score))
        → p query nodes ≡ ok result
        → IsFrom nodes result

    apply_all-Matches :
        (ps : List (String → List (NodeWithScore Score) → Result (List (NodeWithScore Score))))
        → All Shortens ps
        → (f : SearchFilters) (query : String) (nodes result : List (NodeWithScore Score))
        → apply_all llama settings lower ps query nodes ≡ ok result
        → Matches f nodes
        → Matches f result
    apply_all-Matches [] each f query nodes result h n =
        let same : nodes ≡ result = cc h in rw same at n
    apply_all-Matches (p ∷ ps) (one, each) f query nodes result h n =
        let (next, h1, e) =
          first_returned (apply_all llama settings lower ps query) (p query nodes) h in
        apply_all-Matches ps each f query next result h1
          (Matches-IsFrom f nodes next (one query nodes next e) n)

    deduplicated : Shortens (λ query nodes. ok (postprocess_nodes lower nodes))
    deduplicated query nodes result h =
        let same : postprocess_nodes lower nodes ≡ result = cc h in
        rw same at (postprocess_nodes-IsFrom lower nodes)

    build_postprocessors-Shortens : All Shortens (build_postprocessors llama settings lower)
    unfolding build_postprocessors
    build_postprocessors-Shortens =
        let last : All Shortens
            ((λ query nodes. ok (postprocess_nodes lower nodes)) ∷ llama.reorder ∷ []) =
          (deduplicated, (llama.reorder-IsFrom, tt)) in
        elim (Bool-cases settings.reranker_enabled) [
          | inl r ↦ elim (Bool-cases settings.context_compression_enabled) [
            | inl c ↦ rw (r, c) (llama.rerank-IsFrom, (llama.compress-IsFrom, last))
            | inr c ↦ rw (r, c) (llama.rerank-IsFrom, last)
          ]
          | inr r ↦ elim (Bool-cases settings.context_compression_enabled) [
            | inl c ↦ rw (r, c) (llama.compress-IsFrom, last)
            | inr c ↦ rw (r, c) last
          ]
        ]

    -- Whatever the retrievers, the reranker and the other postprocessors find and keep, every node
    -- that a search returns passes the filters it was called with.
    pub run_search-Matches :
        (f : SearchFilters) (bm25_index : Option ℕ) (query : String)
        (nodes : List (NodeWithScore Score))
        → run_search llama settings lower query f bm25_index ≡ ok nodes
        → (x : NodeWithScore Score) → Member x nodes
        → node_matches_filters x.metadata f ≡ true
    unfolding run_search
    run_search-Matches f bm25_index query nodes h =
        let (start, h1, e) =
          first_returned _ (build_hybrid_retriever llama settings f bm25_index query) h in
        apply_all-Matches (build_postprocessors llama settings lower) build_postprocessors-Shortens
          f query start nodes h1 (build_hybrid_retriever-Matches f bm25_index query start e)

    -- The node that a citation of a search stands for: the one at its place in what the retrieval
    -- with the filters of the request returned.
    pub record IsServed (request : SearchRequest) (api_key : ApiKey) (bm25_index : Option ℕ) (k : ℕ)
        (c : Citation Score) : Type 0 where
      pub filters : SearchFilters
      pub nodes : List (NodeWithScore Score)
      pub node : NodeWithScore Score
      pub scoped :
          resolve_scoped_filters api_key request.department request.doc_type request.tags
          ≡ ok filters
      pub retrieved : run_search llama settings lower request.query filters bm25_index ≡ ok nodes
      pub place : get_elem? nodes k ≡ some node
      pub cites : Cites (1 + k) node c
      pub authorized : IsAuthorized api_key node.metadata

    -- Each citation of a search that answers carries the number of its place, and the text, the score
    -- and the source of the node at that place in what was retrieved for the request; and that node is
    -- of the tenant of the key, and of each facet that the key restricts it has an allowed value.
    pub search-IsAuthorized :
        (request : SearchRequest) (api_key : ApiKey) (bm25_index : Option ℕ)
        (citations : List (Citation Score))
        → search llama settings lower request api_key bm25_index ≡ ok citations
        → (k : ℕ) (c : Citation Score) → get_elem? citations k ≡ some c
        → IsServed request api_key bm25_index k c
    unfolding search
    search-IsAuthorized request api_key bm25_index citations h k c at_place =
        let (f, h1, e) =
          first_returned _
            (resolve_scoped_filters api_key request.department request.doc_type request.tags) h in
        let (nodes, h2, g) =
          first_returned _ (run_search llama settings lower request.query f bm25_index) h1 in
        let same : citations ≡ build_citations nodes = cc h2 in
        let place : get_elem? (build_citations nodes) k ≡ some c = rw same at at_place in
        let (n, stands, m, cites) = build_citations-cited nodes k c place in
        record {
          filters = f;
          nodes = nodes;
          node = n;
          scoped = e;
          retrieved = g;
          place = stands;
          cites = cites;
          authorized =
              IsAuthorized-of_matches api_key n.metadata f
                (resolve_scoped_filters-IsScoped api_key request.department request.doc_type
                  request.tags f e)
                (run_search-Matches f bm25_index request.query nodes g n m);
        }
