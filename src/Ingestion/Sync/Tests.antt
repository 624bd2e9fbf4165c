-- ===== src/Ingestion/Sync/Tests.antt =====
-- A folder that is synchronised, also after a file has gone, and the theorems at it.
use text.Mathlib.TextEquality.{eq_iff}
use enterprise_doc_rag.Common.{
  String, ◌≡◌, ◌≢◌, refl, ap, arith, List, [], ◌∷◌, map, select, string_eq, nat_eq,
}
use enterprise_doc_rag.Common.Result.{Result, ok}
use enterprise_doc_rag.Cache.{invalidate_for_document}
use enterprise_doc_rag.Cache.Memory.{memory_qdrant}
use enterprise_doc_rag.Retrieval.Collections.{ensure_collection}
use enterprise_doc_rag.Registry.{
  Status, completed, deleted, get_or_create_document, finalize_document,
}
use enterprise_doc_rag.Registry.Drawn.{draw, draw-IsFresh}
use enterprise_doc_rag.Ingestion.Metadata.{resolve}
use enterprise_doc_rag.Ingestion.Memory.{memory_docstore, memory_store, memory_bm25, one_chunk}
use enterprise_doc_rag.Ingestion.Start.{no_documents, no_documents-IsSettled, no_documents-IsSound}
use enterprise_doc_rag.Ingestion.Pipeline.{State, ingest_file, purge_existing_document_data}
use enterprise_doc_rag.Ingestion.Worker.Settled.{IsSettled}
use enterprise_doc_rag.Ingestion.Sync.{FolderFile, SyncSummary, is_source, sync_folder}
use enterprise_doc_rag.Ingestion.Sync.Completed.{AreDistinct}
use enterprise_doc_rag.Ingestion.Sync.Synced.{IsSynced, sync_folder-IsSynced}
use enterprise_doc_rag.Ingestion.Sync.Again.{sync_folder_again}
use enterprise_doc_rag.Ingestion.Runner.{run_ingestion, run_ingestion-IsSettled}

abbrev handbook : FolderFile String
handbook = record {
  parts = "acme" ∷ "hr" ∷ "handbook.pdf" ∷ [];
  file = record {
    relative_path = "acme/hr/handbook.pdf";
    name = "handbook.pdf";
    suffix = ".pdf";
    read = ok ("h1", 100);
    load = λ loader. ok ("Holidays" ∷ []);
  };
  reached_at = 1;
  relative_path-join = refl;
}

abbrev slides : FolderFile String
slides = record {
  parts = "acme" ∷ "slides.pptx" ∷ [];
  file = record {
    relative_path = "acme/slides.pptx";
    name = "slides.pptx";
    suffix = ".pptx";
    read = ok ("h2", 50);
    load = λ loader. ok ("Plan" ∷ "Budget" ∷ []);
  };
  reached_at = 2;
  relative_path-join = refl;
}

abbrev notes : FolderFile String
notes = record slides {
  parts = "notes.txt" ∷ [];
  file = record {
    relative_path = "notes.txt";
    name = "notes.txt";
    suffix = ".txt";
    read = ok ("h3", 5);
    load = λ loader. ok [];
  };
  relative_path-join = refl;
}

abbrev folder : List (FolderFile String)
folder = handbook ∷ notes ∷ slides ∷ []

abbrev sync :
    List (FolderFile String)
    → State memory_docstore memory_store memory_qdrant
    → Result SyncSummary × State memory_docstore memory_store memory_qdrant
sync =
    sync_folder memory_docstore memory_store memory_qdrant one_chunk (λ ns. ok tt) 8 (λ s. s)
      "/docs" [] draw

abbrev summary : SyncSummary
summary = record {
  ingested = "acme/hr/handbook.pdf" ∷ "acme/slides.pptx" ∷ [];
  unchanged = [];
  deleted = [];
  skipped = [];
}

first_sync : (sync folder no_documents).0 ≡ ok summary
unfolding sync_folder ingest_file get_or_create_document finalize_document ensure_collection resolve
    string_eq nat_eq
first_sync = refl

-- The slides have gone.
vanished :
    map {B = String × Status}
      (λ d. (d.source_path, d.status))
      (sync (handbook ∷ []) (sync folder no_documents).1).1.registry.documents
    ≡ ("acme/slides.pptx", deleted) ∷ ("acme/hr/handbook.pdf", completed) ∷ []
unfolding sync_folder ingest_file purge_existing_document_data invalidate_for_document
    get_or_create_document finalize_document ensure_collection resolve string_eq nat_eq
vanished = refl

other_path : slides.file.relative_path ≢ handbook.file.relative_path
other_path e = ground (arith, eq_iff "acme/slides.pptx" "acme/hr/handbook.pdf", e)

folder-AreDistinct : AreDistinct (select (is_source (λ s. s)) folder)
unfolding string_eq
folder-AreDistinct = ((other_path, tt), (tt, tt))

sync_folder-IsSynced_example :
    IsSynced memory_docstore memory_store memory_qdrant one_chunk
      (λ ns. ok tt)
      8
      (λ s. s)
      "/docs"
      []
      draw
      folder
      no_documents
      (sync folder no_documents).1
sync_folder-IsSynced_example =
    sync_folder-IsSynced memory_docstore memory_store memory_qdrant one_chunk (λ ns. ok tt) 8
      (λ s. s) "/docs" [] draw draw-IsFresh folder no_documents (sync folder no_documents).1 summary
      folder-AreDistinct no_documents-IsSound
      (ap (λ r. (r, (sync folder no_documents).1)) first_sync)

sync_folder_again_example :
    (s : SyncSummary) × (sync folder (sync folder no_documents).1
      ≡ (ok s, (sync folder no_documents).1))
    × (s.ingested ≡ [])
    × (s.deleted ≡ [])
    × (s.skipped ≡ [])
sync_folder_again_example =
    sync_folder_again memory_docstore memory_store memory_qdrant one_chunk (λ ns. ok tt) 8 (λ s. s)
      "/docs" [] draw draw-IsFresh folder no_documents (sync folder no_documents).1 summary
      folder-AreDistinct no_documents-IsSound
      (ap (λ r. (r, (sync folder no_documents).1)) first_sync)

run_ingestion-IsSettled_example :
    IsSettled memory_docstore memory_store memory_qdrant
      (run_ingestion memory_docstore memory_store memory_qdrant one_chunk
        (λ ns. ok tt)
        8
        (λ s. s)
        "/docs"
        []
        draw
        memory_bm25
        folder
        (record { world = no_documents; index = [] })).1.world
run_ingestion-IsSettled_example =
    run_ingestion-IsSettled memory_docstore memory_store memory_qdrant one_chunk (λ ns. ok tt) 8
      (λ s. s) "/docs" [] draw memory_bm25 draw-IsFresh folder
      (record { world = no_documents; index = [] }) no_documents-IsSettled
