-- ===== src/Ingestion/Stores.antt =====
-- What ingestion relies on of the docstore and of the chunk collection. A node carries the metadata
-- of its file besides a content. A call may fail, and then has done any part of its work.
use mathlib.Core.Path.{subst}
use enterprise_doc_rag.Common.{
  ℕ, String, ◌≡◌, ◌≢◌, refl, sym, ap, ◌⊎◌, inl, inr, Bool, Option, List, Member,
}
use enterprise_doc_rag.Common.Result.{Result, ok}
use enterprise_doc_rag.Retrieval.Collections.{Collections}

-- The metadata that `ingest_file` gives to each document of a file.
pub record FileMetadata : Type 0 where
  pub tenant_id : String
  pub department : Option String
  pub doc_type : Option String
  pub tags : List String
  pub source_file : String
  pub content_hash : String
  pub document_id : ℕ
  pub document_version : ℕ

-- A document that a loader made, or a node that is parsed from one.
pub record Node (Content : Type 0) : Type 0 where
  pub content : Content
  pub metadata : FileMetadata

module _ {Content : Type 0} where
  abbrev pub IsOf : ℕ → Node Content → Type 0
  IsOf i n = n.metadata.document_id ≡ i

  -- The nodes of document `i` are deleted, some of them at least, and no others; all if the call
  -- returns.
  pub record Deletes (i : ℕ) (before after : List (Node Content)) (r : Result (Unit {0}))
      : Type 0 where
    pub old : (n : Node Content) → Member n after → Member n before
    pub kept : (n : Node Content) → n.metadata.document_id ≢ i → Member n before → Member n after
    pub gone : r ≡ ok tt → (n : Node Content) → Member n after → n.metadata.document_id ≢ i

  -- Nodes are added, some of the given ones at least; all if the call returns.
  pub record Adds (nodes before after : List (Node Content)) (r : Result (Unit {0})) : Type 0 where
    pub new : (n : Node Content) → Member n after → Member n before ⊎ Member n nodes
    pub kept : (n : Node Content) → Member n before → Member n after
    pub added : r ≡ ok tt → (n : Node Content) → Member n nodes → Member n after

pub record Docstore (Content : Type 0) : Type 1 where
  pub State : Type 0
  pub nodes : State → List (Node Content)
  pub delete_ref_doc : ℕ → State → Result (Unit {0}) × State
  pub add_documents : List (Node Content) → State → Result (Unit {0}) × State
  pub delete_ref_doc-Deletes :
      (i : ℕ) (s : State)
      → Deletes i (nodes s) (nodes (delete_ref_doc i s).1) (delete_ref_doc i s).0
  pub add_documents-Adds :
      (ns : List (Node Content)) (s : State)
      → Adds ns (nodes s) (nodes (add_documents ns s).1) (add_documents ns s).0

pub record VectorStore (Content : Type 0) : Type 1 where
  pub client : Collections (Node Content)
  -- `client.delete` with the condition that `document_id` has the value.
  pub delete_points : ℕ → client.State → Result (Unit {0}) × client.State
  pub add : List (Node Content) → client.State → Result (Unit {0}) × client.State
  pub missing-points :
      (s : client.State) (n : Node Content)
      → Member n (client.points s)
      → client.collection_exists s ≡ Bool.true
  pub delete_points-Deletes :
      (i : ℕ) (s : client.State)
      → Deletes i (client.points s) (client.points (delete_points i s).1) (delete_points i s).0
  pub add-Adds :
      (ns : List (Node Content)) (s : client.State)
      → Adds ns (client.points s) (client.points (add ns s).1) (add ns s).0

module _ {Content : Type 0} where
  -- A document's nodes are replaced by nodes with the metadata `m`, and all others stay.
  pub record Replaces (m : FileMetadata) (before after : List (Node Content)) : Type 0 where
    pub own : (n : Node Content) → Member n after → IsOf m.document_id n → n.metadata ≡ m
    pub kept :
        (n : Node Content)
        → n.metadata.document_id ≢ m.document_id
        → Member n before
        → Member n after
    pub old :
        (n : Node Content)
        → n.metadata.document_id ≢ m.document_id
        → Member n after
        → Member n before

  pub Replaces-of_added :
      (m : FileMetadata) (nodes before between after : List (Node Content))
      → ((n : Node Content) → Member n nodes → n.metadata ≡ m)
      → Deletes m.document_id before between (ok tt)
      → Adds nodes between after (ok tt)
      → Replaces m before after
  Replaces-of_added m nodes before between after tagged d a = record {
    own = λ n k e. elim (a.new n k) [
      | inl there ↦ absurd (d.gone refl n there e)
      | inr added ↦ tagged n added
    ];
    kept = λ n ne k. a.kept n (d.kept n ne k);
    old = λ n ne k. elim (a.new n k) [
      | inl there ↦ d.old n there
      | inr added ↦ absurd (ne (ap (λ x. x.document_id) (tagged n added)))
    ];
  }

  -- Nothing is to be deleted of a document without nodes.
  pub Deletes-absent :
      (i : ℕ) (nodes : List (Node Content)) (r : Result (Unit {0}))
      → ((n : Node Content) → Member n nodes → n.metadata.document_id ≢ i)
      → Deletes i nodes nodes r
  Deletes-absent i nodes r absent = record {
    old = λ n m. m;
    kept = λ n ne m. m;
    gone = λ e n m. absent n m;
  }

  -- Every node is of a document of which `P` holds.
  abbrev pub AllOf : (ℕ → Type 0) → List (Node Content) → Type 0
  AllOf P nodes = (n : Node Content) → Member n nodes → P n.metadata.document_id

  pub AllOf-new :
      (P : ℕ → Type 0) (i : ℕ) (before after : List (Node Content))
      → P i
      → ((n : Node Content) → Member n after → Member n before ⊎ IsOf i n)
      → AllOf P before
      → AllOf P after
  AllOf-new P i before after known new all n m = elim (new n m) [
    | inl old ↦ all n old
    | inr e ↦ subst P (sym e) known
  ]
