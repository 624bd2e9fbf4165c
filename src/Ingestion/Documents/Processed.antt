-- ===== src/Ingestion/Documents/Processed.antt =====
-- The worker's task for an upload.
use mathlib.Core.Path.{subst}
use enterprise_doc_rag.Common.{ℕ, String, ◌≡◌, refl, sym, inl, inr, some, List}
use enterprise_doc_rag.Common.Result.{Result, Error, ok, err, Result-cases}
use enterprise_doc_rag.Security.Keys.{ApiKey}
use enterprise_doc_rag.Cache.{Qdrant}
use enterprise_doc_rag.Registry.{
  Document, Registry, find_document, completed, failed, mark_document_failed,
}
use enterprise_doc_rag.Registry.Consistent.{IsConsistent, IsFresh, found_of_Member, Member_of_found}
use enterprise_doc_rag.Registry.Marked.{mark_document_failed-Member}
use enterprise_doc_rag.Ingestion.Metadata.{ResolvedMetadata}
use enterprise_doc_rag.Ingestion.Stores.{Node, Docstore, VectorStore}
use enterprise_doc_rag.Ingestion.Pipeline.{
  Loader, loader_of, SourceFile, IngestResult, NodeParser, State, ingest_file,
}
use enterprise_doc_rag.Ingestion.Pipeline.Committed.{HasRow, ingest_file-HasRow}
use enterprise_doc_rag.Ingestion.Pipeline.Sound.Kept.{ingest_file-IsSound}
use enterprise_doc_rag.Ingestion.Bm25Index.{Bm25, rebuild_bm25_index}
use enterprise_doc_rag.Ingestion.Worker.{Site, run_session, attempt_ingest, reindexed, ingest}
use enterprise_doc_rag.Ingestion.Worker.Settled.{
  IsSettled, begun-IsSound, fail_ingest-IsSettled, reindexed_world, run_session-IsSettled,
  Reindexed, of_session, of_rebuild, reindexed-Reindexed,
}
use enterprise_doc_rag.Ingestion.Worker.Finished.{
  Finished, completed_row, failed_row, missing_row, unindexed_row, run_session-Finished,
}
use enterprise_doc_rag.Ingestion.Documents.{UploadForm, task_metadata, upload_document}
use enterprise_doc_rag.Ingestion.Documents.Queued.{upload_document-IsQueued}

-- The row of an uploaded file at the end of its task, in which the rebuild of the index would end as
-- `rebuilt`: completed with the hash of the contents, or, if the task raised, failed, or completed all
-- the same if it was the rebuild that raised.
pub data Processed {Content : Type 0} (file : SourceFile Content) (tenant : String)
    (committed : Registry) (rebuilt : Result ℕ) : Result IngestResult → Type 0 where
  completed_upload :
      (result : IngestResult)
      → (d : Document) → find_document tenant file.relative_path committed ≡ ok (some d)
      → (content_hash : String) → (size_bytes : ℕ) → file.read ≡ ok (content_hash, size_bytes)
      → d.content_hash ≡ content_hash
      → d.status ≡ completed
      → Processed file tenant committed rebuilt (ok result)
  failed_upload :
      (e : Error)
      → (d : Document) → find_document tenant file.relative_path committed ≡ ok (some d)
      → d.status ≡ failed
      → Processed file tenant committed rebuilt (err e)
  unindexed_upload :
      (e : Error)
      → rebuilt ≡ err e
      → (d : Document) → find_document tenant file.relative_path committed ≡ ok (some d)
      → (content_hash : String) → (size_bytes : ℕ) → file.read ≡ ok (content_hash, size_bytes)
      → d.content_hash ≡ content_hash
      → d.status ≡ completed
      → Processed file tenant committed rebuilt (err e)

Processed-unindexed :
    {Content : Type 0} (file : SourceFile Content) (tenant : String) (r : Registry)
    (rebuilt : Result ℕ) (res : IngestResult) (e : Error)
    → rebuilt ≡ err e
    → Processed file tenant r rebuilt (ok res)
    → Processed file tenant r rebuilt (err e)
Processed-unindexed file tenant r rebuilt res e raised
      (completed_upload _ d found h s read hash status) =
    unindexed_upload e raised d found h s read hash status

Processed-of_Finished :
    {Content : Type 0} (file : SourceFile Content) (resolved : ResolvedMetadata) (r : Registry)
    (rebuilt : Result ℕ) (res : Result IngestResult)
    → IsConsistent r
    → ((e : Error) → res ≡ err e → HasRow resolved.tenant_id file.relative_path r)
    → Finished file resolved r rebuilt res
    → Processed file resolved.tenant_id r rebuilt res
Processed-of_Finished file resolved r rebuilt _ c has
      (completed_row res d found h s read hash status) =
    completed_upload res d found h s read hash status
Processed-of_Finished file resolved r rebuilt _ c has (failed_row e d found status) =
    failed_upload e d found status
Processed-of_Finished file resolved r rebuilt _ c has
      (unindexed_row e raised d found h s read hash status) =
    unindexed_upload e raised d found h s read hash status
Processed-of_Finished file resolved r rebuilt _ c has (missing_row e absent) =
    let row = has e refl in
    let found =
      found_of_Member resolved.tenant_id file.relative_path r row.document c row.stored row.key in
    absurd (cc (absent, found))

mark_document_failed-HasRow :
    (t p : String) (r out : Registry)
    → IsConsistent r
    → mark_document_failed t p r ≡ ok out
    → HasRow t p r
    → HasRow t p out
mark_document_failed-HasRow t p r out c h has =
    let (d, m, k) = mark_document_failed-Member r c t p out h has.document has.stored has.key in
    record { document = d; stored = m; key = k }

module _ {Content Score Vector : Type 0} (docstore : Docstore Content) (store : VectorStore Content)
    (qdrant : Qdrant Score Vector) (parser : NodeParser Content)
    (embed : List (Node Content) → Result (Unit {0})) (embedding_dimension : ℕ)
    (lower : String → String) (root : String) (new_id now : ℕ) (file : SourceFile Content) where
  module _ (resolved : ResolvedMetadata) where
    -- If the session raises.
    run_session-HasRow :
        (w : State docstore store qdrant)
        → IsSettled docstore store qdrant w
        → IsFresh new_id w.committed
        → HasRow resolved.tenant_id file.relative_path w.committed
        → let out =
            run_session docstore store qdrant parser embed embedding_dimension lower root new_id now
              file resolved w in
          (e : Error) → out.0 ≡ err e → HasRow resolved.tenant_id file.relative_path out.1.committed
    unfolding run_session attempt_ingest
    run_session-HasRow w h fresh has =
        let s : State docstore store qdrant = record w { registry = w.committed } in
        let ran =
          ingest_file docstore store qdrant parser embed embedding_dimension lower root new_id now
            file resolved s in
        let start = begun-IsSound docstore store qdrant w h in
        let sound =
          ingest_file-IsSound docstore store qdrant parser embed embedding_dimension lower root
            new_id now file resolved s start fresh in
        elim (Result-cases ran.0) [
          | inl (e, raised) ↦
              let (out, marked, e', settled) =
                fail_ingest-IsSettled docstore store qdrant file resolved e ran.1 sound in
              let has' =
                ingest_file-HasRow docstore store qdrant parser embed embedding_dimension lower root
                  file new_id now resolved s start.consistent fresh has in
              rw (raised, e')
                (λ x same.
                  mark_document_failed-HasRow resolved.tenant_id file.relative_path ran.1.committed
                    out sound.consistent_committed marked has')
          | inr (res, done) ↦ rw done (λ x same. absurd (cc same))
        ]

    Processed-Reindexed :
        (r : Registry) (rebuilt : Result ℕ) (ran res : Result IngestResult)
        → Processed file resolved.tenant_id r rebuilt ran
        → Reindexed docstore store qdrant ran rebuilt res
        → Processed file resolved.tenant_id r rebuilt res
    Processed-Reindexed r rebuilt ran _ f of_session = f
    Processed-Reindexed r rebuilt ran _ f (of_rebuild res done e raised) =
        Processed-unindexed file resolved.tenant_id r rebuilt res e raised
          (subst (Processed file resolved.tenant_id r rebuilt) done f)

    task-Processed :
        (loader : Loader) (bm25 : Bm25 store) (site : Site docstore store qdrant)
        → loader_of (lower file.suffix) ≡ some loader
        → IsSettled docstore store qdrant site.world
        → IsFresh new_id site.world.committed
        → HasRow resolved.tenant_id file.relative_path site.world.committed
        → let out =
            ingest docstore store qdrant parser embed embedding_dimension lower root new_id now file
              resolved bm25 site in
          Processed file resolved.tenant_id out.1.world.committed
            (rebuild_bm25_index store bm25 out.1.world.vectors site.index).0
            out.0
    unfolding ingest
    task-Processed loader bm25 site supported h fresh has =
        let ran =
          run_session docstore store qdrant parser embed embedding_dimension lower root new_id now
            file resolved site.world in
        let rebuilt = (rebuild_bm25_index store bm25 ran.1.vectors site.index).0 in
        let out = reindexed docstore store qdrant bm25 site.index ran in
        let settled =
          run_session-IsSettled docstore store qdrant parser embed embedding_dimension lower root
            new_id now file resolved site.world h fresh in
        let finished =
          run_session-Finished docstore store qdrant parser embed embedding_dimension lower root
            new_id now file resolved loader rebuilt site.world supported h fresh in
        subst
          (λ w.
            Processed file resolved.tenant_id w.committed
              (rebuild_bm25_index store bm25 w.vectors site.index).0 out.0)
          (sym (reindexed_world docstore store qdrant bm25 site.index ran))
          (Processed-Reindexed ran.1.committed rebuilt ran.0 out.0
            (Processed-of_Finished file resolved ran.1.committed rebuilt ran.0 settled.consistent
              (run_session-HasRow site.world h fresh has) finished)
            (reindexed-Reindexed docstore store qdrant bm25 site.index ran))

  module _ (api_key : ApiKey) (form : UploadForm) where
    -- An upload whose contents can be read back and whose suffix has a loader, made with a fresh id on
    -- settled tables and stores, is never lost: the task that it queues, run with a fresh id on what
    -- the upload left, ends with the row of the path and of the tenant of the key committed,
    -- completed with the hash of the contents if the task returns, and if it raises failed, or completed
    -- with that hash if what was raised is the exception of the rebuild of the index.
    pub upload_document-Processed :
        (upload_root : String) (upload_id uploaded_at : ℕ) (loader : Loader) (bm25 : Bm25 store)
        (index : List (Node Content)) (content_hash : String) (size_bytes : ℕ)
        (w : State docstore store qdrant)
        → loader_of (lower file.suffix) ≡ some loader
        → file.read ≡ ok (content_hash, size_bytes)
        → IsSettled docstore store qdrant w
        → IsFresh upload_id w.committed
        → let uploaded =
            upload_document docstore store qdrant upload_root upload_id uploaded_at api_key file
              form w in
          IsFresh new_id uploaded.1.committed
          → let out =
              ingest docstore store qdrant parser embed embedding_dimension lower root new_id now
                file
                (task_metadata api_key form)
                bm25
                (record { world = uploaded.1; index = index }) in
            Processed file api_key.tenant_id out.1.world.committed
              (rebuild_bm25_index store bm25 out.1.world.vectors index).0
              out.0
    upload_document-Processed upload_root upload_id uploaded_at loader bm25 index content_hash
          size_bytes w supported read h fresh fresh' =
        let (returned, queued) =
          upload_document-IsQueued docstore store qdrant upload_root upload_id uploaded_at api_key
            file form w h fresh content_hash size_bytes read in
        let (stored, key) =
          Member_of_found api_key.tenant_id file.relative_path _ queued.document
            queued.settled.consistent queued.found in
        task-Processed (task_metadata api_key form) loader bm25 _ supported queued.settled fresh'
          (record { document = queued.document; stored = stored; key = key })
