-- ===== src/Cache/Collection.antt =====
-- What the semantic cache relies on of Qdrant: a collection holds points with payloads, a filter is
-- a conjunction of conditions, and a query with limit 1 and a score threshold finds a point that
-- passes the filter and reaches the threshold, if there is one.
use enterprise_doc_rag.Common.{
  ℕ, String, ◌≡◌, Bool, true, false, not, ◌&&◌, Option, some, List, [], ◌∷◌, ◌==◌, nat_eq,
  string_eq, contains, any, all, select, Member, list_eq,
}
use enterprise_doc_rag.Retrieval.Citations.{Citation}

pub record ScopeKey : Type 0 where
  pub department : List String
  pub doc_type : List String
  pub tags : List String

abbrev pub same_scope : ScopeKey → ScopeKey → Bool
same_scope a b = a.department == b.department && a.doc_type == b.doc_type && a.tags == b.tags

pub record CachePoint (Score Vector : Type 0) : Type 0 where
  pub id : ℕ
  pub vector : Vector
  pub question : String
  pub answer : String
  pub citations : List (Citation Score)
  pub tenant_id : String
  pub filter_scope : ScopeKey
  pub source_document_ids : List String
  pub created_at : ℕ
  pub expires_at : ℕ

-- `FieldCondition`s: `MatchValue` on the first two keys and `MatchAny` on the third.
pub data Condition : Type 0 where
  tenant_id_is : String → Condition
  filter_scope_is : ScopeKey → Condition
  source_document_ids_any : List String → Condition

-- When a payload fulfils a condition, as Qdrant documents it.
abbrev pub holds : {Score Vector : Type 0} → Condition → CachePoint Score Vector → Bool
holds (tenant_id_is t) p = p.tenant_id == t
holds (filter_scope_is k) p = same_scope p.filter_scope k
holds (source_document_ids_any ds) p = any (contains p.source_document_ids) ds

pub record Qdrant (Score Vector : Type 0) : Type 1 where
  pub State : Type 0
  pub collection_exists : State → Bool
  pub points : State → List (CachePoint Score Vector)
  -- The cosine similarity of two vectors reaches the threshold.
  pub similar : Vector → Vector → Bool
  pub create_collection : ℕ → State → State
  pub create_payload_index : String → State → State
  pub upsert : CachePoint Score Vector → State → State
  pub delete : List Condition → State → State
  pub query_points : Vector → List Condition → State → Option (CachePoint Score Vector)
  pub exists-create : (n : ℕ) (s : State) → collection_exists (create_collection n s) ≡ true
  pub points-create :
      (n : ℕ) (s : State) → collection_exists s ≡ false → points (create_collection n s) ≡ []
  pub exists-index :
      (field : String) (s : State)
      → collection_exists (create_payload_index field s) ≡ collection_exists s
  pub points-index : (field : String) (s : State) → points (create_payload_index field s) ≡ points s
  pub exists-upsert :
      (p : CachePoint Score Vector) (s : State)
      → collection_exists (upsert p s) ≡ collection_exists s
  pub points-upsert :
      (p : CachePoint Score Vector) (s : State)
      → collection_exists s ≡ true
      → any (λ x. x.id == p.id) (points s) ≡ false
      → points (upsert p s) ≡ p ∷ points s
  pub exists-delete :
      (fs : List Condition) (s : State) → collection_exists (delete fs s) ≡ collection_exists s
  pub points-delete :
      (fs : List Condition) (s : State)
      → points (delete fs s) ≡ select (λ p. not (all (λ f. holds f p) fs)) (points s)
  pub query-found :
      (v : Vector) (fs : List Condition) (s : State) (p : CachePoint Score Vector)
      → query_points v fs s ≡ some p
      → Member p (points s) × (all (λ f. holds f p) fs ≡ true) × (similar v p.vector ≡ true)
