-- ===== src/Ingestion/Sync.antt =====
-- ingestion/registry_sync.py and ingestion/runner.py. A folder is the list of the files that the walk
-- finds in it, each with its parts below the root and the time when it is reached. The id that
-- Postgres draws for a new row depends on the rows that are there.
pub mod Deleted
pub mod Sound
pub mod Completed
pub mod Synced
pub mod Again
mod Tests
use enterprise_doc_rag.Common.{
  ℕ, String, ◌≡◌, Bool, true, false, not, ◌&&◌, Option, List, [], ◌∷◌, ◌++◌, ◌==◌, string_eq,
  contains, select, if◌then◌else◌, map,
}
use enterprise_doc_rag.Common.Text.{join}
use enterprise_doc_rag.Common.Result.{Result, ok, err}
use enterprise_doc_rag.Common.Io.{Io, pure, ◌>>=◌}
use enterprise_doc_rag.Cache.{Qdrant}
use enterprise_doc_rag.Registry.{
  Document, Registry, is_deleted, deleted, with_status, update_document,
}
use enterprise_doc_rag.Ingestion.Metadata.{Manifest, resolve}
use enterprise_doc_rag.Ingestion.World.{World, commit, session}
use enterprise_doc_rag.Ingestion.Stores.{Node, Docstore, VectorStore}
use enterprise_doc_rag.Ingestion.Bm25Index.{rebuild_bm25_index}
use enterprise_doc_rag.Ingestion.Pipeline.{
  SourceFile, IngestStatus, IngestResult, ingested, unchanged, skipped_unsupported, NodeParser,
  State, purge_existing_document_data, ingest_file,
}

pub record FolderFile (Content : Type 0) : Type 0 where
  pub parts : List String
  pub file : SourceFile Content
  pub reached_at : ℕ
  pub relative_path-join : file.relative_path ≡ join "/" parts

abbrev pub supported_extensions : List String
supported_extensions = ".pdf" ∷ ".docx" ∷ ".pptx" ∷ []

abbrev pub manifest_filename : String
manifest_filename = "_meta.json"

pub record SyncSummary : Type 0 where
  pub ingested : List String
  pub unchanged : List String
  pub deleted : List String
  pub skipped : List String

abbrev pub no_summary : SyncSummary
no_summary = record { ingested = []; unchanged = []; deleted = []; skipped = [] }

abbrev pub noted_as : IngestStatus → String → SyncSummary → SyncSummary
noted_as ingested path s = record s { ingested = s.ingested ++ path ∷ [] }
noted_as unchanged path s = record s { unchanged = s.unchanged ++ path ∷ [] }
noted_as skipped_unsupported path s = record s { skipped = s.skipped ++ path ∷ [] }

abbrev pub noted_deleted : String → SyncSummary → SyncSummary
noted_deleted path s = record s { deleted = s.deleted ++ path ∷ [] }

abbrev pub is_source : {Content : Type 0} → (String → String) → FolderFile Content → Bool
is_source lower f =
    contains supported_extensions (lower f.file.suffix) && not (f.file.name == manifest_filename)

-- `discovered_paths`, of the files that are ingested.
abbrev pub discovered_in :
    {Content : Type 0} → (String → String) → List (FolderFile Content) → List String
discovered_in lower folder = map (λ f. f.file.relative_path) (select (is_source lower) folder)

-- The rows that the query for vanished files finds.
abbrev pub is_live_under : String → Document → Bool
is_live_under root d = not (is_deleted d.status) && d.ingestion_root == root

abbrev pub live_under : String → Registry → List Document
live_under root r = select (is_live_under root) r.documents

abbrev pub set_deleted : Document → Registry → Result (Unit {0} × Registry)
set_deleted d r = ok (tt, update_document d.id (with_status deleted) r)

module _ {Content Score Vector : Type 0} (docstore : Docstore Content) (store : VectorStore Content)
    (qdrant : Qdrant Score Vector) where
  -- `document.status = "deleted"` after the purge.
  unfoldable pub delete_row : Document → Io (State docstore store qdrant) (Unit {0})
  delete_row d = do
    _ ← purge_existing_document_data docstore store qdrant d.id
    session (set_deleted d)

  unfoldable pub delete_missing :
      List String → List Document → SyncSummary → Io (State docstore store qdrant) SyncSummary
  delete_missing discovered [] s = pure s
  delete_missing discovered (d ∷ ds) s =
      let rest = delete_missing discovered ds in
      if contains discovered d.source_path
      then rest s
      else (do _ ← delete_row d; rest (noted_deleted d.source_path s))

  module _ (parser : NodeParser Content) (embed : List (Node Content) → Result (Unit {0}))
      (embedding_dimension : ℕ) (lower : String → String) (root : String) (manifest : Manifest)
      (draw : Registry → ℕ) where
    abbrev pub ingest_found : FolderFile Content → Io (State docstore store qdrant) IngestResult
    ingest_found f w =
        ingest_file docstore store qdrant parser embed embedding_dimension lower root
          (draw w.registry) f.reached_at f.file (resolve manifest f.parts) w

    abbrev pub ingest_committed : FolderFile Content → Io (State docstore store qdrant) IngestResult
    ingest_committed f = do result ← ingest_found f; _ ← commit; pure result

    unfoldable pub ingest_all :
        List (FolderFile Content) → SyncSummary → Io (State docstore store qdrant) SyncSummary
    ingest_all [] s = pure s
    ingest_all (f ∷ fs) s = do
      result ← ingest_committed f
      ingest_all fs (noted_as result.status result.source_path s)

    -- From the query for vanished files on.
    abbrev pub delete_vanished :
        List String → SyncSummary → Io (State docstore store qdrant) SyncSummary
    delete_vanished discovered s w = delete_missing discovered (live_under root w.registry) s w

    unfoldable pub sync_folder :
        List (FolderFile Content) → Io (State docstore store qdrant) SyncSummary
    unfolding ingest_all delete_missing delete_row
    sync_folder folder = do
      let files = select (is_source lower) folder
      s ← ingest_all files no_summary
      s' ← delete_vanished (discovered_in lower folder) s
      _ ← commit
      pure s'
