-- ===== src/Ingestion/Documents/Tests.antt =====
-- An upload that is ingested, listed and deleted, and the theorems of the documents API at it.
use enterprise_doc_rag.Common.{
  ℕ, String, ◌≡◌, refl, false, none, some, List, [], ◌∷◌, map, string_eq, nat_eq,
}
use enterprise_doc_rag.Common.Text.{is_space}
use enterprise_doc_rag.Common.Result.{Result, ok, err, http}
use enterprise_doc_rag.Security.Keys.{ApiKey}
use enterprise_doc_rag.Cache.{invalidate_for_document}
use enterprise_doc_rag.Cache.Memory.{memory_qdrant}
use enterprise_doc_rag.Retrieval.Collections.{ensure_collection}
use enterprise_doc_rag.Registry.{
  Status, completed, queued, get_or_create_document, finalize_document, register_queued_upload,
}
use enterprise_doc_rag.Registry.Consistent.{IsConsistent, IsFresh}
use enterprise_doc_rag.Registry.Empty.{no_rows-IsFresh}
use enterprise_doc_rag.Ingestion.Memory.{memory_docstore, memory_store, memory_bm25, one_chunk}
use enterprise_doc_rag.Ingestion.Start.{no_documents, no_documents-IsSettled}
use enterprise_doc_rag.Ingestion.Pipeline.{
  SourceFile, State, load_pdf, loader_of, ingest_file, purge_existing_document_data,
}
use enterprise_doc_rag.Ingestion.Bm25Index.{rebuild_bm25_index}
use enterprise_doc_rag.Ingestion.Worker.{Site, ingest}
use enterprise_doc_rag.Ingestion.Worker.Settled.{ingest-IsSettled}
use enterprise_doc_rag.Ingestion.Sync.{delete_row}
use enterprise_doc_rag.Ingestion.Documents.{
  UploadForm, tag_list, task_metadata, upload_document, list_documents, delete_document,
}
use enterprise_doc_rag.Ingestion.Documents.Queued.{IsQueued, upload_document-IsQueued}
use enterprise_doc_rag.Ingestion.Documents.Listed.{IsListing, list_documents-IsListing}
use enterprise_doc_rag.Ingestion.Documents.Processed.{Processed, upload_document-Processed}
use enterprise_doc_rag.Ingestion.Documents.Removed.{Removal, delete_document-Removal}

abbrev acme : ApiKey
acme = record {
  id = 1;
  tenant_id = "acme";
  name = "acme";
  key_hash = "h";
  key_prefix = "edr_01234567";
  allowed_filters = [];
  is_admin = false;
  created_at = 0;
  revoked_at = none;
  last_used_at = none;
}

abbrev other_tenant : ApiKey
other_tenant = record acme { id = 2; tenant_id = "globex" }

abbrev handbook : SourceFile String
handbook = record {
  relative_path = "acme/handbook.pdf";
  name = "handbook.pdf";
  suffix = ".pdf";
  read = ok ("h1", 100);
  load = λ loader. ok ("Holidays" ∷ "Expenses" ∷ []);
}

abbrev form : UploadForm
form = record { department = some "hr"; doc_type = none; tags = " hr, ,onboarding" }

tags_of_form : tag_list form.tags ≡ "hr" ∷ "onboarding" ∷ []
unfolding is_space nat_eq
tags_of_form = refl

abbrev uploaded : State memory_docstore memory_store memory_qdrant
uploaded =
    (upload_document memory_docstore memory_store memory_qdrant "/uploads" 7 1 acme handbook form
      no_documents).1

abbrev site : Site memory_docstore memory_store memory_qdrant
site = record { world = uploaded; index = [] }

abbrev processed : Site memory_docstore memory_store memory_qdrant
processed =
    (ingest memory_docstore memory_store memory_qdrant one_chunk (λ ns. ok tt) 8 (λ s. s) "/uploads"
      8 2 handbook (task_metadata acme form) memory_bm25 site).1

processed_rows :
    map {B = ℕ × Status × ℕ}
      (λ d. (d.id, d.status, d.num_chunks))
      (list_documents acme processed.world.committed)
    ≡ (7, completed, 2) ∷ []
unfolding list_documents ingest ingest_file upload_document register_queued_upload
    get_or_create_document finalize_document ensure_collection rebuild_bm25_index string_eq nat_eq
processed_rows = refl

abbrev removal : ApiKey → Result ℕ × Site memory_docstore memory_store memory_qdrant × List String
removal key =
    delete_document memory_docstore memory_store memory_qdrant "/uploads" memory_bm25
      (λ path files. (ok tt, [])) 7 key processed ("/uploads/acme/handbook.pdf" ∷ [])

own_removal :
    ((removal acme).0 ≡ ok 7) × ((removal acme).1.world.docs ≡ []) × ((removal acme).2 ≡ [])
unfolding delete_document delete_row purge_existing_document_data invalidate_for_document ingest
    ingest_file upload_document register_queued_upload get_or_create_document finalize_document
    ensure_collection rebuild_bm25_index string_eq nat_eq
own_removal = (refl, refl, refl)

other_removal : (removal other_tenant).0 ≡ err (http 404)
unfolding delete_document ingest ingest_file upload_document register_queued_upload
    get_or_create_document finalize_document ensure_collection rebuild_bm25_index string_eq nat_eq
other_removal = refl

upload_document-IsQueued_example :
    ((upload_document memory_docstore memory_store memory_qdrant "/uploads" 7 1 acme handbook form
        no_documents).0
      ≡ ok (record { source_path = "acme/handbook.pdf"; status = queued }, task_metadata acme form))
    × IsQueued memory_docstore memory_store memory_qdrant "/uploads" 7 1 acme handbook form "h1" 100
        no_documents uploaded
upload_document-IsQueued_example =
    upload_document-IsQueued memory_docstore memory_store memory_qdrant "/uploads" 7 1 acme handbook
      form no_documents no_documents-IsSettled (no_rows-IsFresh 7) "h1" 100 refl

list_documents-IsListing_example :
    IsListing acme processed.world.committed (list_documents acme processed.world.committed)
list_documents-IsListing_example = list_documents-IsListing acme processed.world.committed

uploaded-IsFresh : IsFresh 8 uploaded.committed
unfolding upload_document register_queued_upload string_eq nat_eq
uploaded-IsFresh = record { no_document = refl; no_version = λ n. refl }

processed-IsConsistent : IsConsistent processed.world.committed
processed-IsConsistent =
    (ingest-IsSettled memory_docstore memory_store memory_qdrant one_chunk (λ ns. ok tt) 8 (λ s. s)
      "/uploads" 8 2 handbook (task_metadata acme form) memory_bm25 site
      (upload_document-IsQueued memory_docstore memory_store memory_qdrant "/uploads" 7 1 acme
        handbook form no_documents no_documents-IsSettled (no_rows-IsFresh 7) "h1" 100
        refl).1.settled
      uploaded-IsFresh).consistent

delete_document-Removal_example :
    Removal memory_docstore memory_store memory_qdrant "/uploads" memory_bm25
      (λ path files. (ok tt, []))
      7
      acme
      processed
      ("/uploads/acme/handbook.pdf" ∷ [])
      (removal acme)
delete_document-Removal_example =
    delete_document-Removal memory_docstore memory_store memory_qdrant "/uploads" memory_bm25
      (λ path files. (ok tt, [])) 7 acme processed ("/uploads/acme/handbook.pdf" ∷ [])
      processed-IsConsistent

handbook_loader : loader_of ".pdf" ≡ some load_pdf
unfolding string_eq
handbook_loader = refl

upload_document-Processed_example :
    Processed handbook "acme" processed.world.committed
      (rebuild_bm25_index memory_store memory_bm25 processed.world.vectors []).0
      (ingest memory_docstore memory_store memory_qdrant one_chunk
        (λ ns. ok tt)
        8
        (λ s. s)
        "/uploads"
        8
        2
        handbook
        (task_metadata acme form)
        memory_bm25
        site).0
upload_document-Processed_example =
    upload_document-Processed memory_docstore memory_store memory_qdrant one_chunk (λ ns. ok tt) 8
      (λ s. s) "/uploads" 8 2 handbook acme form "/uploads" 7 1 load_pdf memory_bm25 [] "h1" 100
      no_documents handbook_loader refl no_documents-IsSettled (no_rows-IsFresh 7) uploaded-IsFresh
