-- ===== src/Ingestion/Pipeline.antt =====
-- ingestion/pipeline.py. A file is what the pipeline reads of it: its path below the root, and what
-- hashing and loading it return, which may be an exception. The parser that makes the nodes and
-- the embedding model are parameters.
pub mod Indexed
pub mod Purged
pub mod Replaced
pub mod UpToDate
pub mod Sound
pub mod Returns
pub mod Committed
use Prim.Native.Char.{code}
use enterprise_doc_rag.Common.{
  ℕ, zero, String, Bool, true, false, not, Option, none, some, List, [], ◌∷◌, map, length, ◌==◌,
  string_eq, nat_eq, ◌≡◌, Member, if◌then◌else◌,
}
use enterprise_doc_rag.Common.Text.{decimal}
use enterprise_doc_rag.Common.Result.{Result, ok, err}
use enterprise_doc_rag.Common.Io.{Io, pure, lift, ◌>>=◌}
use enterprise_doc_rag.Retrieval.Collections.{ensure_collection}
use enterprise_doc_rag.Cache.{Qdrant, invalidate_for_document}
use enterprise_doc_rag.Registry.{
  Document, Registry, FileInfo, VersionDecision, get_or_create_document, finalize_document,
}
use enterprise_doc_rag.Ingestion.Metadata.{ResolvedMetadata}
pub use enterprise_doc_rag.Ingestion.Files.{
  Loader, load_pdf, load_docx, load_pptx, loader_of, SourceFile, IngestStatus, unchanged, ingested,
  skipped_unsupported, IngestResult, lstrip_dots, NodeParser, file_info, file_metadata, tag_all,
}
use enterprise_doc_rag.Ingestion.World.{
  World, session, updating, commit, on_docs, on_vectors, on_cache,
}
use enterprise_doc_rag.Ingestion.Stores.{FileMetadata, Node, Docstore, VectorStore}

module _ {Content Score Vector : Type 0} (docstore : Docstore Content) (store : VectorStore Content)
    (qdrant : Qdrant Score Vector) where
  abbrev pub State : Type 0
  State = World docstore.State store.client.State qdrant.State

  unfoldable pub delete_vectors : ℕ → Io State (Unit {0})
  delete_vectors i w =
      if store.client.collection_exists w.vectors
      then on_vectors (store.delete_points i) w
      else (ok tt, w)

  unfoldable pub purge_existing_document_data : ℕ → Io State (Unit {0})
  unfolding delete_vectors
  purge_existing_document_data i = do
    _ ← on_docs (docstore.delete_ref_doc i)
    _ ← delete_vectors i
    on_cache (invalidate_for_document qdrant (decimal i))

abbrev pub finalized : Document → ℕ → Registry → Result (Unit {0} × Registry)
finalized d num_chunks r = updating (finalize_document d num_chunks r)

module _ {Content Score Vector : Type 0} (docstore : Docstore Content) (store : VectorStore Content)
    (qdrant : Qdrant Score Vector) (parser : NodeParser Content)
    (embed : List (Node Content) → Result (Unit {0})) (embedding_dimension : ℕ)
    (lower : String → String) (root : String) where
  abbrev pub skipped : SourceFile Content → IngestResult
  skipped file = record {
    source_path = file.relative_path;
    status = skipped_unsupported;
    num_leaf_chunks = 0;
    document_id = none;
  }

  -- From the loading of the documents on.
  unfoldable pub index_documents :
      SourceFile Content
      → Loader
      → FileInfo
      → Document
      → Io (State docstore store qdrant) IngestResult
  index_documents file loader info d = do
    contents ← lift (file.load loader)
    (all, leaf) ← lift (parser.build_hierarchical_nodes (tag_all (file_metadata info d) contents))
    _ ← on_docs (docstore.add_documents all)
    _ ← lift (embed leaf)
    _ ← on_vectors (λ s. (ok tt, ensure_collection store.client embedding_dimension s))
    _ ← on_vectors (store.add leaf)
    _ ← session (finalized d (length leaf))
    pure (record {
      source_path = file.relative_path;
      status = ingested;
      num_leaf_chunks = length leaf;
      document_id = some d.id;
    })

  -- From the commit of the decision on.
  unfoldable pub ingest_changed :
      SourceFile Content
      → Loader
      → FileInfo
      → VersionDecision
      → Io (State docstore store qdrant) IngestResult
  unfolding index_documents
  ingest_changed file loader info decision = do
    _ ← commit
    _ ←
        if decision.is_new
        then pure tt
        else purge_existing_document_data docstore store qdrant decision.document.id
    index_documents file loader info decision.document

  unfoldable pub ingest_decided :
      SourceFile Content
      → Loader
      → FileInfo
      → VersionDecision
      → Io (State docstore store qdrant) IngestResult
  unfolding ingest_changed
  ingest_decided file loader info decision =
      if not decision.changed
      then pure (record {
        source_path = file.relative_path;
        status = unchanged;
        num_leaf_chunks = 0;
        document_id = some decision.document.id;
      })
      else ingest_changed file loader info decision

  abbrev pub ingest_supported :
      ℕ
      → ℕ
      → SourceFile Content
      → ResolvedMetadata
      → Loader
      → Io (State docstore store qdrant) IngestResult
  ingest_supported new_id now file resolved loader = do
    (content_hash, size_bytes) ← lift file.read
    let info = file_info root (lower file.suffix) file resolved content_hash size_bytes
    decision ← session (get_or_create_document new_id now info)
    ingest_decided file loader info decision

  abbrev pub ingest_with :
      ℕ
      → ℕ
      → SourceFile Content
      → ResolvedMetadata
      → Option Loader
      → Io (State docstore store qdrant) IngestResult
  ingest_with new_id now file resolved none = pure (skipped file)
  ingest_with new_id now file resolved (some loader) =
      ingest_supported new_id now file resolved loader

  -- The id that Postgres would draw for a new row, and the time, are arguments.
  unfoldable pub ingest_file :
      ℕ → ℕ → SourceFile Content → ResolvedMetadata → Io (State docstore store qdrant) IngestResult
  unfolding ingest_decided
  ingest_file new_id now file resolved =
      ingest_with new_id now file resolved (loader_of (lower file.suffix))
