-- ===== src/Ingestion/Runner.antt =====
-- ingestion/runner.py: `run_ingestion`, in a session of its own.
use mathlib.Core.Path.{subst}
use enterprise_doc_rag.Common.{
  ◌≡◌, refl, sym, inl, inr, Bool-cases, ℕ, String, Bool, true, false, ◌||◌, List, [], ◌∷◌,
  if◌then◌else◌,
}
use enterprise_doc_rag.Common.Result.{Result, ok, err}
use enterprise_doc_rag.Common.Io.{◌>>=◌}
use enterprise_doc_rag.Cache.{Qdrant}
use enterprise_doc_rag.Registry.{Registry}
use enterprise_doc_rag.Registry.Consistent.{IsFresh}
use enterprise_doc_rag.Ingestion.Metadata.{Manifest}
use enterprise_doc_rag.Ingestion.World.{begin}
use enterprise_doc_rag.Ingestion.Stores.{Node, Docstore, VectorStore}
use enterprise_doc_rag.Ingestion.Bm25Index.{Bm25, rebuild_bm25_index}
use enterprise_doc_rag.Ingestion.Pipeline.{NodeParser, State}
use enterprise_doc_rag.Ingestion.Pipeline.Sound.{IsSound}
use enterprise_doc_rag.Ingestion.Worker.{Site, after_rebuild}
use enterprise_doc_rag.Ingestion.Worker.Settled.{IsSettled, begun-IsSound, after_rebuild_world}
use enterprise_doc_rag.Ingestion.Sync.{FolderFile, SyncSummary, sync_folder}
use enterprise_doc_rag.Ingestion.Sync.Sound.{sync_folder-IsSound}

-- The truth of a list is that it is not empty.
abbrev pub is_filled : List String → Bool
is_filled [] = false
is_filled (x ∷ xs) = true

module _ {Content Score Vector : Type 0} (docstore : Docstore Content) (store : VectorStore Content)
    (qdrant : Qdrant Score Vector) where
  abbrev pub reindexed_after :
      Bm25 store
      → List (Node Content)
      → Result SyncSummary × State docstore store qdrant
      → Result SyncSummary × Site docstore store qdrant
  reindexed_after bm25 index (err e, w) = (err e, record { world = w; index = index })
  reindexed_after bm25 index (ok s, w) =
      if is_filled s.ingested || is_filled s.deleted
      then after_rebuild docstore store qdrant s w (rebuild_bm25_index store bm25 w.vectors index)
      else (ok s, record { world = w; index = index })

  reindexed_after_world :
      (bm25 : Bm25 store) (index : List (Node Content))
      (out : Result SyncSummary × State docstore store qdrant)
      → (reindexed_after bm25 index out).1.world ≡ out.1
  reindexed_after_world bm25 index (err e, w) = refl
  reindexed_after_world bm25 index (ok s, w) =
      elim (Bool-cases (is_filled s.ingested || is_filled s.deleted)) [
        | inl changed ↦ rw changed (
            after_rebuild_world docstore store qdrant s w
              (rebuild_bm25_index store bm25 w.vectors index))
        | inr same ↦ rw same refl
      ]

  -- A session that ends commits no more than it has.
  reindexed_after-IsSettled :
      (bm25 : Bm25 store) (index : List (Node Content))
      (out : Result SyncSummary × State docstore store qdrant)
      → IsSound docstore store qdrant out.1
      → IsSettled docstore store qdrant (reindexed_after bm25 index out).1.world
  reindexed_after-IsSettled bm25 index out h =
      subst (IsSettled docstore store qdrant) (sym (reindexed_after_world bm25 index out)) (record {
        consistent = h.consistent_committed;
        accounted = record {
          docs = h.accounted_committed.docs;
          vectors = h.accounted_committed.vectors;
        };
      })

  module _ (parser : NodeParser Content) (embed : List (Node Content) → Result (Unit {0}))
      (embedding_dimension : ℕ) (lower : String → String) (root : String) (manifest : Manifest)
      (draw : Registry → ℕ) (bm25 : Bm25 store) where
    unfoldable pub run_ingestion :
        List (FolderFile Content)
        → Site docstore store qdrant
        → Result SyncSummary × Site docstore store qdrant
    run_ingestion folder site = reindexed_after bm25 site.index (
        (begin >>= (λ u.
            sync_folder docstore store qdrant parser embed embedding_dimension lower root manifest
              draw folder))
          site.world)

    -- A run of the folder ingestion, whether it returns or raises, leaves committed tables that are
    -- consistent, and stores whose every node is of a document with a row for its current version
    -- in them, if that was so before and the drawn ids are fresh.
    pub run_ingestion-IsSettled :
        ((r : Registry) → IsFresh (draw r) r)
        → (folder : List (FolderFile Content)) (site : Site docstore store qdrant)
        → IsSettled docstore store qdrant site.world
        → IsSettled docstore store qdrant (run_ingestion folder site).1.world
    unfolding run_ingestion
    run_ingestion-IsSettled fresh folder site h =
        let s : State docstore store qdrant = record site.world {
          registry = site.world.committed;
        } in
        let sound =
          sync_folder-IsSound docstore store qdrant parser embed embedding_dimension lower root
            manifest draw fresh folder s (begun-IsSound docstore store qdrant site.world h) in
        reindexed_after-IsSettled bm25 site.index
          (sync_folder docstore store qdrant parser embed embedding_dimension lower root manifest
            draw folder s)
          sound
