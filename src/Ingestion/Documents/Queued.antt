-- ===== src/Ingestion/Documents/Queued.antt =====
-- What an upload leaves.
use enterprise_doc_rag.Common.{ℕ, String, ◌≡◌, refl, some}
use enterprise_doc_rag.Common.Result.{ok}
use enterprise_doc_rag.Security.Keys.{ApiKey}
use enterprise_doc_rag.Cache.{Qdrant}
use enterprise_doc_rag.Registry.{Document, queued, find_document}
use enterprise_doc_rag.Registry.Consistent.{IsFresh, found_of_Member}
use enterprise_doc_rag.Registry.Updates.{
  register_queued_upload-IsConsistent, register_queued_upload-queued,
}
use enterprise_doc_rag.Registry.Ingested.{register_queued_upload-IsIngested}
use enterprise_doc_rag.Ingestion.Stores.{Docstore, VectorStore}
use enterprise_doc_rag.Ingestion.Pipeline.{SourceFile, State}
use enterprise_doc_rag.Ingestion.Worker.Settled.{IsSettled}
use enterprise_doc_rag.Ingestion.Documents.{
  UploadForm, tag_list, task_metadata, upload_info, upload_document,
}

module _ {Content Score Vector : Type 0} (docstore : Docstore Content) (store : VectorStore Content)
    (qdrant : Qdrant Score Vector) (upload_root : String) (new_id now : ℕ) (api_key : ApiKey)
    (file : SourceFile Content) (form : UploadForm) where
  -- The row of the upload is committed as queued, under the tenant of the key.
  pub record IsQueued (content_hash : String) (size_bytes : ℕ) (w w' : State docstore store qdrant)
      : Type 0 where
    pub document : Document
    pub found : find_document api_key.tenant_id file.relative_path w'.committed ≡ ok (some document)
    pub status : document.status ≡ queued
    pub hash : document.content_hash ≡ content_hash
    pub size : document.size_bytes ≡ size_bytes
    pub tags : document.tags ≡ some (tag_list form.tags)
    pub settled : IsSettled docstore store qdrant w'
    pub docs : w'.docs ≡ w.docs
    pub vectors : w'.vectors ≡ w.vectors
    pub cache : w'.cache ≡ w.cache

  -- An upload that can be read back returns, with a fresh id and committed tables that are
  -- consistent, its path and the status queued; the row of its path and of the tenant of the key is
  -- committed as queued with the hash, the size and the stripped tags; the tables stay consistent,
  -- and the stores and the cache are as before.
  pub upload_document-IsQueued :
      (w : State docstore store qdrant)
      → IsSettled docstore store qdrant w
      → IsFresh new_id w.committed
      → (content_hash : String) (size_bytes : ℕ) → file.read ≡ ok (content_hash, size_bytes)
      → let out =
          upload_document docstore store qdrant upload_root new_id now api_key file form w in
        (out.0
          ≡ ok (
            record { source_path = file.relative_path; status = queued },
            task_metadata api_key form,
          ))
        × IsQueued content_hash size_bytes w out.1
  unfolding upload_document
  upload_document-IsQueued w h fresh content_hash size_bytes read =
      let info = upload_info upload_root api_key file form content_hash size_bytes in
      let (out, e, c) =
        register_queued_upload-IsConsistent w.committed h.consistent new_id now info fresh in
      let kept = register_queued_upload-IsIngested w.committed new_id now info out e in
      let (d, m, k, status, hash, size, tags) =
        register_queued_upload-queued w.committed h.consistent new_id now info out e in
      rw (read, e)
        (
          refl,
          record {
            document = d;
            found = found_of_Member api_key.tenant_id file.relative_path out d c m k;
            status = status;
            hash = hash;
            size = size;
            tags = tags;
            settled = record {
              consistent = c;
              accounted = record {
                docs = λ n j. kept _ (h.accounted.docs n j);
                vectors = λ n j. kept _ (h.accounted.vectors n j);
              };
            };
            docs = refl;
            vectors = refl;
            cache = refl;
          },
        )
