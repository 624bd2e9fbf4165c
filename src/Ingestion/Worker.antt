-- ===== src/Ingestion/Worker.antt =====
-- worker/tasks.py: `_ingest`, which runs one file through the pipeline in a session of its own. The
-- engine is made for the task and disposed of after it.
pub mod Settled
pub mod Finished
use enterprise_doc_rag.Common.{ℕ, String, Bool, true, false, List, if◌then◌else◌}
use enterprise_doc_rag.Common.Result.{Result, Error, ok, err}
use enterprise_doc_rag.Common.Io.{Io, pure, lift, try_except, ◌>>=◌}
use enterprise_doc_rag.Cache.{Qdrant}
use enterprise_doc_rag.Registry.{Registry, mark_document_failed}
use enterprise_doc_rag.Ingestion.Metadata.{ResolvedMetadata}
use enterprise_doc_rag.Ingestion.World.{World, begin, session, updating, commit, rollback}
use enterprise_doc_rag.Ingestion.Stores.{Node, Docstore, VectorStore}
use enterprise_doc_rag.Ingestion.Bm25Index.{Bm25, rebuild_bm25_index}
use enterprise_doc_rag.Ingestion.Pipeline.{
  SourceFile, IngestStatus, IngestResult, ingested, NodeParser, State, ingest_file,
}

abbrev pub is_ingested : IngestStatus → Bool
is_ingested ingested = true
is_ingested _ = false

abbrev pub marked : String → String → Registry → Result (Unit {0} × Registry)
marked tenant path r = updating (mark_document_failed tenant path r)

module _ {Content Score Vector : Type 0} (docstore : Docstore Content) (store : VectorStore Content)
    (qdrant : Qdrant Score Vector) where
  -- The stores and the BM25 index on disk.
  pub record Site : Type 0 where
    pub world : State docstore store qdrant
    pub index : List (Node Content)

  unfoldable pub fail_ingest :
      SourceFile Content → ResolvedMetadata → Error → Io (State docstore store qdrant) IngestResult
  fail_ingest file resolved e = do
    _ ← rollback
    _ ← session (marked resolved.tenant_id file.relative_path)
    _ ← commit
    lift (err e)

  -- What follows the rebuild of the index: an exception of it is raised, after all that was committed.
  abbrev pub after_rebuild :
      {A : Type 0}
      → A
      → State docstore store qdrant
      → Result ℕ × List (Node Content)
      → Result A × Site
  after_rebuild a w (err e, index) = (err e, record { world = w; index = index })
  after_rebuild a w (ok n, index) = (ok a, record { world = w; index = index })

  abbrev pub reindexed :
      Bm25 store
      → List (Node Content)
      → Result IngestResult × State docstore store qdrant
      → Result IngestResult × Site
  reindexed bm25 index (err e, w) = (err e, record { world = w; index = index })
  reindexed bm25 index (ok result, w) =
      if is_ingested result.status
      then after_rebuild result w (rebuild_bm25_index store bm25 w.vectors index)
      else (ok result, record { world = w; index = index })

  module _ (parser : NodeParser Content) (embed : List (Node Content) → Result (Unit {0}))
      (embedding_dimension : ℕ) (lower : String → String) (root : String) (new_id now : ℕ)
      (file : SourceFile Content) (resolved : ResolvedMetadata) where
    unfoldable pub attempt_ingest : Io (State docstore store qdrant) IngestResult
    attempt_ingest = do
      result ←
          ingest_file docstore store qdrant parser embed embedding_dimension lower root new_id now
            file resolved
      _ ← commit
      pure result

    -- The session, from its start to its end.
    unfoldable pub run_session : Io (State docstore store qdrant) IngestResult
    unfolding attempt_ingest fail_ingest
    run_session = do _ ← begin; try_except attempt_ingest (fail_ingest file resolved)

    unfoldable pub ingest : Bm25 store → Site → Result IngestResult × Site
    unfolding run_session
    ingest bm25 site = reindexed bm25 site.index (run_session site.world)
