-- ===== src/Retrieval/Search/Pipeline.antt =====
-- What the search relies on of llama_index, each part with any failure as an error: the dense
-- retriever returns nodes that the conditions given to Qdrant admit; fusion returns nodes that one
-- of its retrievers FoundBy, for the query or a variation of it; auto-merging replaces nodes by their
-- parents, which have the metadata of the same file; and the postprocessors drop, reorder and
-- shorten nodes.
use enterprise_doc_rag.Common.{ℕ, String, ◌≡◌, true, List, Member}
use enterprise_doc_rag.Common.Result.{Result, ok}
use enterprise_doc_rag.Retrieval.Filters.{
  NodeMetadata, NodeWithScore, MetadataFilter, PayloadMatching, admits,
}

-- Two nodes belong to one file, as far as the filters see.
pub record SameFile (m n : NodeMetadata) : Type 0 where
  pub tenant_id : m.tenant_id ≡ n.tenant_id
  pub department : m.department ≡ n.department
  pub doc_type : m.doc_type ≡ n.doc_type
  pub tags : m.tags ≡ n.tags

module _ {Score : Type 0} where
  -- Each node of the second list is of the file of a node of the first.
  abbrev pub IsFrom : List (NodeWithScore Score) → List (NodeWithScore Score) → Type 0
  IsFrom nodes result =
      (x : NodeWithScore Score)
      → Member x result
      → (y : NodeWithScore Score) × Member y nodes × SameFile x.metadata y.metadata

  -- A node of the file was found by one of the retrievers.
  abbrev pub FoundBy :
      List (String → Result (List (NodeWithScore Score))) → NodeWithScore Score → Type 0
  FoundBy retrievers x =
      (r : String → Result (List (NodeWithScore Score))) × (query : String) × (nodes : List
        (NodeWithScore Score))
      × (y : NodeWithScore Score) × Member r retrievers
      × (r query ≡ ok nodes)
      × Member y nodes
      × SameFile x.metadata y.metadata

pub record Llama (Score : Type 0) : Type 1 where
  pub matching : PayloadMatching
  pub dense_retrieve : ℕ → List MetadataFilter → String → Result (List (NodeWithScore Score))
  pub bm25_retrieve : ℕ → String → Result (List (NodeWithScore Score))
  pub fuse :
      ℕ
      → ℕ
      → List (String → Result (List (NodeWithScore Score)))
      → String
      → Result (List (NodeWithScore Score))
  pub auto_merge :
      (String → Result (List (NodeWithScore Score))) → String → Result (List (NodeWithScore Score))
  pub rerank : String → List (NodeWithScore Score) → Result (List (NodeWithScore Score))
  pub compress : String → List (NodeWithScore Score) → Result (List (NodeWithScore Score))
  pub reorder : String → List (NodeWithScore Score) → Result (List (NodeWithScore Score))
  pub dense-admits :
      (k : ℕ) (filters : List MetadataFilter) (query : String) (nodes : List (NodeWithScore Score))
      → dense_retrieve k filters query ≡ ok nodes
      → (x : NodeWithScore Score) → Member x nodes
      → admits matching filters x.metadata ≡ true
  pub fuse-found :
      (k n : ℕ) (retrievers : List (String → Result (List (NodeWithScore Score)))) (query : String)
      (nodes : List (NodeWithScore Score))
      → fuse k n retrievers query ≡ ok nodes
      → (x : NodeWithScore Score) → Member x nodes
      → FoundBy retrievers x
  pub auto_merge-IsFrom :
      (retriever : String → Result (List (NodeWithScore Score))) (query : String)
      (nodes : List (NodeWithScore Score))
      → auto_merge retriever query ≡ ok nodes
      → (before : List (NodeWithScore Score)) × (retriever query ≡ ok before) × IsFrom before nodes
  pub rerank-IsFrom :
      (query : String) (nodes result : List (NodeWithScore Score))
      → rerank query nodes ≡ ok result
      → IsFrom nodes result
  pub compress-IsFrom :
      (query : String) (nodes result : List (NodeWithScore Score))
      → compress query nodes ≡ ok result
      → IsFrom nodes result
  pub reorder-IsFrom :
      (query : String) (nodes result : List (NodeWithScore Score))
      → reorder query nodes ≡ ok result
      → IsFrom nodes result
