-- ===== src/Ingestion/Worker/Finished.antt =====
-- What a task of the worker leaves of its document.
use mathlib.Core.Path.{subst}
use enterprise_doc_rag.Common.{ℕ, String, ◌≡◌, sym, ap, inl, inr, none, some, List}
use enterprise_doc_rag.Common.Result.{Result, Error, ok, err, Result-cases}
use enterprise_doc_rag.Cache.{Qdrant}
use enterprise_doc_rag.Registry.{
  Document, Registry, find_document, completed, failed, mark_document_failed,
}
use enterprise_doc_rag.Registry.Consistent.{
  IsConsistent, IsFresh, found_of_Member, find_document-cases,
}
use enterprise_doc_rag.Registry.Marked.{mark_document_failed-status}
use enterprise_doc_rag.Ingestion.Metadata.{ResolvedMetadata}
use enterprise_doc_rag.Ingestion.Stores.{Node, Docstore, VectorStore}
use enterprise_doc_rag.Ingestion.Pipeline.{
  Loader, loader_of, SourceFile, IngestResult, NodeParser, State, ingest_file,
}
use enterprise_doc_rag.Ingestion.Pipeline.Sound.Kept.{ingest_file-IsSound}
use enterprise_doc_rag.Ingestion.Pipeline.UpToDate.{
  Returned, skipped_file, unchanged_file, ingested_file, ingest_file-Returned,
}
use enterprise_doc_rag.Ingestion.Bm25Index.{Bm25, rebuild_bm25_index}
use enterprise_doc_rag.Ingestion.Worker.{Site, run_session, attempt_ingest, reindexed, ingest}
use enterprise_doc_rag.Ingestion.Worker.Settled.{
  IsSettled, begun-IsSound, fail_ingest-IsSettled, reindexed_world, Reindexed, of_session,
  of_rebuild, reindexed-Reindexed,
}

-- The row of a file at the end of a task, in which the rebuild of the index would end as `rebuilt`:
-- completed with the hash of the contents, or, if the task raised, failed or missing, or completed
-- all the same if it was the rebuild that raised.
pub data Finished {Content : Type 0} (file : SourceFile Content) (resolved : ResolvedMetadata)
    (committed : Registry) (rebuilt : Result ℕ) : Result IngestResult → Type 0 where
  completed_row :
      (result : IngestResult)
      → (d : Document) → find_document resolved.tenant_id file.relative_path committed ≡ ok (some d)
      → (content_hash : String) → (size_bytes : ℕ) → file.read ≡ ok (content_hash, size_bytes)
      → d.content_hash ≡ content_hash
      → d.status ≡ completed
      → Finished file resolved committed rebuilt (ok result)
  failed_row :
      (e : Error)
      → (d : Document) → find_document resolved.tenant_id file.relative_path committed ≡ ok (some d)
      → d.status ≡ failed
      → Finished file resolved committed rebuilt (err e)
  missing_row :
      (e : Error)
      → find_document resolved.tenant_id file.relative_path committed ≡ ok none
      → Finished file resolved committed rebuilt (err e)
  unindexed_row :
      (e : Error)
      → rebuilt ≡ err e
      → (d : Document) → find_document resolved.tenant_id file.relative_path committed ≡ ok (some d)
      → (content_hash : String) → (size_bytes : ℕ) → file.read ≡ ok (content_hash, size_bytes)
      → d.content_hash ≡ content_hash
      → d.status ≡ completed
      → Finished file resolved committed rebuilt (err e)

Finished-unindexed :
    {Content : Type 0} (file : SourceFile Content) (resolved : ResolvedMetadata) (r : Registry)
    (rebuilt : Result ℕ) (res : IngestResult) (e : Error)
    → rebuilt ≡ err e
    → Finished file resolved r rebuilt (ok res)
    → Finished file resolved r rebuilt (err e)
Finished-unindexed file resolved r rebuilt res e raised
      (completed_row _ d found h s read hash status) =
    unindexed_row e raised d found h s read hash status

marked-Finished :
    {Content : Type 0} (file : SourceFile Content) (resolved : ResolvedMetadata) (r out : Registry)
    (rebuilt : Result ℕ) (e : Error)
    → IsConsistent r
    → IsConsistent out
    → mark_document_failed resolved.tenant_id file.relative_path r ≡ ok out
    → Finished file resolved out rebuilt (err e)
marked-Finished file resolved r out rebuilt e c c' marked =
    elim (find_document-cases resolved.tenant_id file.relative_path out c') [
      | inl (absent, z) ↦ missing_row e absent
      | inr (d, found, m, k) ↦
          failed_row e d found (mark_document_failed-status r c _ _ out marked d found)
    ]

module _ {Content Score Vector : Type 0} (docstore : Docstore Content) (store : VectorStore Content)
    (qdrant : Qdrant Score Vector) (parser : NodeParser Content)
    (embed : List (Node Content) → Result (Unit {0})) (embedding_dimension : ℕ)
    (lower : String → String) (root : String) (new_id now : ℕ) (file : SourceFile Content)
    (resolved : ResolvedMetadata) where
  Returned-Finished :
      (loader : Loader) (rebuilt : Result ℕ) (w w' : State docstore store qdrant)
      (res : IngestResult)
      → loader_of (lower file.suffix) ≡ some loader
      → IsConsistent w.registry
      → IsConsistent w'.registry
      → Returned docstore store qdrant parser lower root file resolved w w' res
      → Finished file resolved w'.registry rebuilt (ok res)
  Returned-Finished loader rebuilt w w' res supported c c' (skipped_file unsupported status same) =
      absurd (cc (supported, unsupported))
  Returned-Finished loader rebuilt w w' res supported c c'
        (unchanged_file status same content_hash size_bytes read d found hash done) =
      completed_row res d
        (subst (λ x. find_document resolved.tenant_id file.relative_path x.registry ≡ ok (some d))
          (sym same) found)
        content_hash size_bytes read hash done
  Returned-Finished loader rebuilt w w' res supported c c' (ingested_file status u) =
      completed_row res u.document
        (found_of_Member resolved.tenant_id file.relative_path w'.registry u.document c'
          u.replaced.stored u.key)
        u.content_hash u.size_bytes u.read u.hash u.status

  Finished-Reindexed :
      (r : Registry) (rebuilt : Result ℕ) (ran res : Result IngestResult)
      → Finished file resolved r rebuilt ran
      → Reindexed docstore store qdrant ran rebuilt res
      → Finished file resolved r rebuilt res
  Finished-Reindexed r rebuilt ran _ f of_session = f
  Finished-Reindexed r rebuilt ran _ f (of_rebuild res done e raised) =
      Finished-unindexed file resolved r rebuilt res e raised
        (subst (Finished file resolved r rebuilt) done f)

  pub run_session-Finished :
      (loader : Loader) (rebuilt : Result ℕ) (w : State docstore store qdrant)
      → loader_of (lower file.suffix) ≡ some loader
      → IsSettled docstore store qdrant w
      → IsFresh new_id w.committed
      → let out =
          run_session docstore store qdrant parser embed embedding_dimension lower root new_id now
            file resolved w in
        Finished file resolved out.1.committed rebuilt out.0
  unfolding run_session attempt_ingest
  run_session-Finished loader rebuilt w supported h fresh =
      let s : State docstore store qdrant = record w { registry = w.committed } in
      let ran =
        ingest_file docstore store qdrant parser embed embedding_dimension lower root new_id now
          file resolved s in
      let start = begun-IsSound docstore store qdrant w h in
      let sound =
        ingest_file-IsSound docstore store qdrant parser embed embedding_dimension lower root new_id
          now file resolved s start fresh in
      elim (Result-cases ran.0) [
        | inl (e, raised) ↦
            let (out, marked, e', settled) =
              fail_ingest-IsSettled docstore store qdrant file resolved e ran.1 sound in
            rw (raised, e')
              (marked-Finished file resolved ran.1.committed out rebuilt e
                sound.consistent_committed settled.consistent marked)
        | inr (res, done) ↦
            let returned =
              ingest_file-Returned docstore store qdrant parser embed embedding_dimension lower root
                new_id now file resolved s ran.1 res start.consistent fresh start.accounted
                (ap (λ x. (x, ran.1)) done) in
            rw done (
              Returned-Finished loader rebuilt s ran.1 res supported start.consistent
                sound.consistent returned)
      ]

  -- A task for a file whose suffix has a loader, started with a fresh id on consistent tables and
  -- stores whose nodes are of ingested documents, ends with the row of the tenant and path
  -- committed: if the task returns, completed with the hash of the file; if it raises, failed, or
  -- there is no such row, or it is completed with the hash of the file and what was raised is the
  -- exception of the rebuild of the index. None is left queued or processing.
  pub ingest-Finished :
      (loader : Loader) (bm25 : Bm25 store) (site : Site docstore store qdrant)
      → loader_of (lower file.suffix) ≡ some loader
      → IsSettled docstore store qdrant site.world
      → IsFresh new_id site.world.committed
      → let out =
          ingest docstore store qdrant parser embed embedding_dimension lower root new_id now file
            resolved bm25 site in
        Finished file resolved out.1.world.committed
          (rebuild_bm25_index store bm25 out.1.world.vectors site.index).0
          out.0
  unfolding ingest
  ingest-Finished loader bm25 site supported h fresh =
      let ran =
        run_session docstore store qdrant parser embed embedding_dimension lower root new_id now
          file resolved site.world in
      let rebuilt = (rebuild_bm25_index store bm25 ran.1.vectors site.index).0 in
      let out = reindexed docstore store qdrant bm25 site.index ran in
      let same = reindexed_world docstore store qdrant bm25 site.index ran in
      subst
        (λ w.
          Finished file resolved w.committed (rebuild_bm25_index store bm25 w.vectors site.index).0
            out.0)
        (sym same)
        (Finished-Reindexed ran.1.committed rebuilt ran.0 out.0
          (run_session-Finished loader rebuilt site.world supported h fresh)
          (reindexed-Reindexed docstore store qdrant bm25 site.index ran))
