-- ===== src/Ingestion/Worker/Settled.antt =====
-- The invariant that each task of the worker keeps.
use mathlib.Core.Path.{subst}
use enterprise_doc_rag.Common.{Bool-cases, ℕ, String, ◌≡◌, refl, sym, inl, inr, List}
use enterprise_doc_rag.Common.Result.{Result, Error, ok, err, Result-cases}
use enterprise_doc_rag.Cache.{Qdrant}
use enterprise_doc_rag.Registry.{Registry, mark_document_failed}
use enterprise_doc_rag.Registry.Consistent.{IsConsistent, IsFresh}
use enterprise_doc_rag.Registry.Updates.{mark_document_failed-IsConsistent}
use enterprise_doc_rag.Registry.Ingested.{mark_document_failed-IsIngested}
use enterprise_doc_rag.Ingestion.Metadata.{ResolvedMetadata}
use enterprise_doc_rag.Ingestion.Stores.{Node, Docstore, VectorStore}
use enterprise_doc_rag.Ingestion.Pipeline.{SourceFile, IngestResult, NodeParser, State, ingest_file}
use enterprise_doc_rag.Ingestion.Pipeline.Replaced.{IsAccounted}
use enterprise_doc_rag.Ingestion.Pipeline.Sound.{IsSound}
use enterprise_doc_rag.Ingestion.Pipeline.Sound.Kept.{ingest_file-IsSound}
use enterprise_doc_rag.Ingestion.Bm25Index.{Bm25, rebuild_bm25_index}
use enterprise_doc_rag.Ingestion.Worker.{
  Site, is_ingested, after_rebuild, reindexed, fail_ingest, run_session, attempt_ingest, ingest,
}

module _ {Content Score Vector : Type 0} (docstore : Docstore Content) (store : VectorStore Content)
    (qdrant : Qdrant Score Vector) where
  -- What is committed is consistent, and every node in the stores is of a document that is in it.
  pub record IsSettled (w : State docstore store qdrant) : Type 0 where
    pub consistent : IsConsistent w.committed
    pub accounted : IsAccounted docstore store qdrant w.committed w

  pub begun-IsSound :
      (w : State docstore store qdrant)
      → IsSettled w
      → IsSound docstore store qdrant (record w { registry = w.committed })
  begun-IsSound w h = record {
    consistent = h.consistent;
    consistent_committed = h.consistent;
    accounted = record { docs = h.accounted.docs; vectors = h.accounted.vectors };
    accounted_committed = record { docs = h.accounted.docs; vectors = h.accounted.vectors };
  }

  committed-IsSettled :
      (w : State docstore store qdrant)
      → IsSound docstore store qdrant w
      → IsSettled (record w { committed = w.registry })
  committed-IsSettled w h = record {
    consistent = h.consistent;
    accounted = record { docs = h.accounted.docs; vectors = h.accounted.vectors };
  }

  -- The handler of an exception returns the exception, and has committed the failure.
  pub fail_ingest-IsSettled :
      (file : SourceFile Content) (resolved : ResolvedMetadata) (e : Error)
      (w : State docstore store qdrant)
      → IsSound docstore store qdrant w
      → (out : Registry) × (mark_document_failed resolved.tenant_id file.relative_path w.committed
          ≡ ok out)
        × (fail_ingest docstore store qdrant file resolved e w
            ≡ (err e, record w { registry = out; committed = out }))
        × IsSettled (record w { registry = out; committed = out })
  unfolding fail_ingest
  fail_ingest-IsSettled file resolved e w h =
      let t = resolved.tenant_id in
      let p = file.relative_path in
      let (out, marked, c) =
        mark_document_failed-IsConsistent w.committed h.consistent_committed t p in
      let kept = mark_document_failed-IsIngested w.committed t p out marked in
      (
        out,
        marked,
        rw marked refl,
        record {
          consistent = c;
          accounted = record {
            docs = λ n m. kept _ (h.accounted_committed.docs n m);
            vectors = λ n m. kept _ (h.accounted_committed.vectors n m);
          };
        },
      )

  pub after_rebuild_world :
      {A : Type 0} (a : A) (w : State docstore store qdrant)
      (rebuilt : Result ℕ × List (Node Content))
      → (after_rebuild docstore store qdrant a w rebuilt).1.world ≡ w
  after_rebuild_world a w (err e, index) = refl
  after_rebuild_world a w (ok n, index) = refl

  -- The index is all that changes after the session.
  pub reindexed_world :
      (bm25 : Bm25 store) (index : List (Node Content))
      (out : Result IngestResult × State docstore store qdrant)
      → (reindexed docstore store qdrant bm25 index out).1.world ≡ out.1
  reindexed_world bm25 index (err e, w) = refl
  reindexed_world bm25 index (ok res, w) = elim (Bool-cases (is_ingested res.status)) [
    | inl ingested ↦
        rw ingested (after_rebuild_world res w (rebuild_bm25_index store bm25 w.vectors index))
    | inr not_ingested ↦ rw not_ingested refl
  ]

  -- What a task returns is what its session returned, or the exception of the rebuild.
  pub data Reindexed (session : Result IngestResult) (rebuilt : Result ℕ)
      : Result IngestResult → Type 0 where
    of_session : Reindexed session rebuilt session
    of_rebuild :
        (res : IngestResult)
        → session ≡ ok res
        → (e : Error) → rebuilt ≡ err e
        → Reindexed session rebuilt (err e)

  after_rebuild-Reindexed :
      (res : IngestResult) (w : State docstore store qdrant)
      (rebuilt : Result ℕ × List (Node Content))
      → Reindexed (ok res) rebuilt.0 (after_rebuild docstore store qdrant res w rebuilt).0
  after_rebuild-Reindexed res w (err e, index) = of_rebuild res refl e refl
  after_rebuild-Reindexed res w (ok n, index) = of_session

  pub reindexed-Reindexed :
      (bm25 : Bm25 store) (index : List (Node Content))
      (out : Result IngestResult × State docstore store qdrant)
      → Reindexed out.0
          (rebuild_bm25_index store bm25 out.1.vectors index).0
          (reindexed docstore store qdrant bm25 index out).0
  reindexed-Reindexed bm25 index (err e, w) = of_session
  reindexed-Reindexed bm25 index (ok res, w) = elim (Bool-cases (is_ingested res.status)) [
    | inl ingested ↦
        rw ingested (after_rebuild-Reindexed res w (rebuild_bm25_index store bm25 w.vectors index))
    | inr not_ingested ↦ rw not_ingested of_session
  ]

  module _ (parser : NodeParser Content) (embed : List (Node Content) → Result (Unit {0}))
      (embedding_dimension : ℕ) (lower : String → String) (root : String) (new_id now : ℕ)
      (file : SourceFile Content) (resolved : ResolvedMetadata) where
    pub run_session-IsSettled :
        (w : State docstore store qdrant)
        → IsSettled w
        → IsFresh new_id w.committed
        → IsSettled
            (run_session docstore store qdrant parser embed embedding_dimension lower root new_id
              now file resolved w).1
    unfolding run_session attempt_ingest
    run_session-IsSettled w h fresh =
        let s : State docstore store qdrant = record w { registry = w.committed } in
        let ran =
          ingest_file docstore store qdrant parser embed embedding_dimension lower root new_id now
            file resolved s in
        let sound =
          ingest_file-IsSound docstore store qdrant parser embed embedding_dimension lower root
            new_id now file resolved s (begun-IsSound w h) fresh in
        elim (Result-cases ran.0) [
          | inl (e, raised) ↦
              let (out, marked, e', settled) = fail_ingest-IsSettled file resolved e ran.1 sound in
              rw (raised, e') settled
          | inr (res, done) ↦ rw done (committed-IsSettled ran.1 sound)
        ]

    -- A task of the worker with a fresh id leaves, whether it returns or raises, committed tables
    -- that are consistent, and stores whose every node is of a document with a row for its current
    -- version in them, if that was so before.
    pub ingest-IsSettled :
        (bm25 : Bm25 store) (site : Site docstore store qdrant)
        → IsSettled site.world
        → IsFresh new_id site.world.committed
        → IsSettled
            (ingest docstore store qdrant parser embed embedding_dimension lower root new_id now
              file resolved bm25 site).1.world
    unfolding ingest
    ingest-IsSettled bm25 site h fresh =
        subst IsSettled (sym (reindexed_world bm25 site.index _))
          (run_session-IsSettled site.world h fresh)
