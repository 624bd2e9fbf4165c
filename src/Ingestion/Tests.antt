-- ===== src/Ingestion/Tests.antt =====
-- The pipeline and the worker on a small upload, and their theorems at it.
use enterprise_doc_rag.Common.{
  ℕ, String, ◌≡◌, refl, none, some, [], ◌∷◌, map, string_eq, nat_eq, list_eq, option_eq,
}
use enterprise_doc_rag.Common.Result.{Result, ok, err, external}
use enterprise_doc_rag.Cache.{invalidate_for_document}
use enterprise_doc_rag.Cache.Memory.{memory_qdrant}
use enterprise_doc_rag.Retrieval.Collections.{ensure_collection}
use enterprise_doc_rag.Registry.{
  completed, get_or_create_document, finalize_document, Status, failed, mark_document_failed,
}
use enterprise_doc_rag.Registry.Empty.{no_rows-IsConsistent, no_rows-IsFresh}
use enterprise_doc_rag.Ingestion.Metadata.{ResolvedMetadata}
use enterprise_doc_rag.Ingestion.Memory.{memory_bm25, memory_docstore, memory_store, one_chunk}
use enterprise_doc_rag.Ingestion.Start.{
  no_documents, no_documents-IsAccounted, no_documents-IsSettled,
}
use enterprise_doc_rag.Ingestion.Pipeline.{
  SourceFile, IngestResult, State, load_pdf, ingested, unchanged, ingest_file,
  purge_existing_document_data,
}
use enterprise_doc_rag.Ingestion.Pipeline.UpToDate.{Returned, ingest_file-Returned}
use enterprise_doc_rag.Ingestion.Pipeline.Returns.{ingest_file-Returns}
use enterprise_doc_rag.Ingestion.Bm25Index.{Bm25, rebuild_bm25_index}
use enterprise_doc_rag.Ingestion.Worker.{Site, ingest}
use enterprise_doc_rag.Ingestion.Worker.Settled.{IsSettled, ingest-IsSettled}
use enterprise_doc_rag.Ingestion.Worker.Finished.{Finished, ingest-Finished}

abbrev handbook : SourceFile String
handbook = record {
  relative_path = "acme/handbook.pdf";
  name = "handbook.pdf";
  suffix = ".pdf";
  read = ok ("h1", 100);
  load = λ loader. ok ("Holidays" ∷ "Expenses" ∷ []);
}

abbrev edited : SourceFile String
edited = record handbook { read = ok ("h2", 120); load = λ loader. ok ("Holidays" ∷ []) }

abbrev damaged : SourceFile String
damaged = record handbook { read = ok ("h3", 90); load = λ loader. err external }

abbrev acme : ResolvedMetadata
acme = record { tenant_id = "acme"; department = some "hr"; doc_type = none; tags = [] }

abbrev run :
    ℕ
    → SourceFile String
    → State memory_docstore memory_store memory_qdrant
    → Result IngestResult × State memory_docstore memory_store memory_qdrant
run id file w =
    ingest_file memory_docstore memory_store memory_qdrant one_chunk (λ ns. ok tt) 8 (λ s. s)
      "/uploads" id 1 file acme w

abbrev first_result : IngestResult
first_result = record {
  source_path = "acme/handbook.pdf";
  status = ingested;
  num_leaf_chunks = 2;
  document_id = some 7;
}

first_run : (run 7 handbook no_documents).0 ≡ ok first_result
unfolding ingest_file get_or_create_document finalize_document ensure_collection string_eq nat_eq
first_run = refl

abbrev after_first : State memory_docstore memory_store memory_qdrant
after_first = (run 7 handbook no_documents).1

-- An edited file replaces the two nodes of the first version by one.
edited_nodes :
    map {B = String × String × ℕ}
      (λ n. (n.content, n.metadata.content_hash, n.metadata.document_version))
      (run 8 edited after_first).1.docs
    ≡ ("Holidays", "h2", 2) ∷ []
unfolding ingest_file purge_existing_document_data get_or_create_document finalize_document
    ensure_collection invalidate_for_document string_eq nat_eq
edited_nodes = refl

again_run :
    (run 8 handbook after_first).0
    ≡ ok (record first_result { status = unchanged; num_leaf_chunks = 0 })
unfolding ingest_file get_or_create_document finalize_document ensure_collection string_eq nat_eq
again_run = refl

ingest_file-Returned_example :
    Returned memory_docstore memory_store memory_qdrant one_chunk
      (λ s. s)
      "/uploads"
      handbook
      acme
      no_documents
      after_first
      first_result
unfolding ingest_file get_or_create_document finalize_document ensure_collection string_eq nat_eq
ingest_file-Returned_example =
    ingest_file-Returned memory_docstore memory_store memory_qdrant one_chunk (λ ns. ok tt) 8
      (λ s. s) "/uploads" 7 1 handbook acme no_documents after_first first_result
      no_rows-IsConsistent (no_rows-IsFresh 7) no_documents-IsAccounted refl

ingest_file-Returns_example : (res : IngestResult) × ((run 7 handbook no_documents).0 ≡ ok res)
ingest_file-Returns_example =
    ingest_file-Returns memory_docstore memory_store memory_qdrant one_chunk (λ ns. ok tt)
      (record {
        delete_ref_doc = λ i s. refl;
        add_documents = λ ns s. refl;
        delete_points = λ i s. refl;
        add = λ ns s. refl;
        parse = λ ds. ((ds, ds), refl);
        embedded = λ ns. refl;
      })
      8 (λ s. s) "/uploads" 7 1 handbook acme no_documents no_rows-IsConsistent (no_rows-IsFresh 7)
      ("h1", 100) refl (λ loader. ("Holidays" ∷ "Expenses" ∷ [], refl))

abbrev no_site : Site memory_docstore memory_store memory_qdrant
no_site = record { world = no_documents; index = [] }

abbrev task :
    SourceFile String → Result IngestResult × Site memory_docstore memory_store memory_qdrant
task file =
    ingest memory_docstore memory_store memory_qdrant one_chunk (λ ns. ok tt) 8 (λ s. s) "/uploads"
      7 1 file acme memory_bm25 no_site

-- A file that cannot be loaded leaves a failed row.
damaged_run :
    map {B = String × Status}
      (λ d. (d.source_path, d.status))
      (task damaged).1.world.committed.documents
    ≡ ("acme/handbook.pdf", failed) ∷ []
unfolding ingest ingest_file get_or_create_document mark_document_failed string_eq nat_eq
damaged_run = refl

ingest-IsSettled_example :
    IsSettled memory_docstore memory_store memory_qdrant (task damaged).1.world
ingest-IsSettled_example =
    ingest-IsSettled memory_docstore memory_store memory_qdrant one_chunk (λ ns. ok tt) 8 (λ s. s)
      "/uploads" 7 1 damaged acme memory_bm25 no_site no_documents-IsSettled (no_rows-IsFresh 7)

ingest-Finished_example :
    Finished damaged acme
      (task damaged).1.world.committed
      (rebuild_bm25_index memory_store memory_bm25 (task damaged).1.world.vectors []).0
      (task damaged).0
unfolding string_eq
ingest-Finished_example =
    ingest-Finished memory_docstore memory_store memory_qdrant one_chunk (λ ns. ok tt) 8 (λ s. s)
      "/uploads" 7 1 damaged acme load_pdf memory_bm25 no_site refl no_documents-IsSettled
      (no_rows-IsFresh 7)

-- A disk that is full when the index is written.
abbrev full_disk : Bm25 memory_store
full_disk = record memory_bm25 {
  persist = λ nodes index. (err external, index);
  persist-nodes = λ nodes index after h. absurd (cc h);
}

-- The task raises, and its document is completed all the same.
unindexed_run :
    let out =
      ingest memory_docstore memory_store memory_qdrant one_chunk
        (λ ns. ok tt)
        8
        (λ s. s)
        "/uploads"
        7
        1
        handbook
        acme
        full_disk
        no_site in
    (out.0 ≡ err external)
    × (map (λ d. d.status) out.1.world.committed.documents ≡ completed ∷ [])
    × (out.1.index ≡ [])
unfolding ingest ingest_file get_or_create_document finalize_document ensure_collection
    rebuild_bm25_index string_eq nat_eq
unindexed_run = (refl, refl, refl)
