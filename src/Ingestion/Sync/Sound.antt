-- ===== src/Ingestion/Sync/Sound.antt =====
-- That a synchronisation of a folder keeps the invariant of the stores.
use enterprise_doc_rag.Common.{
  ℕ, String, inl, inr, List, [], ◌∷◌, contains, select, Bool-cases, string_eq,
}
use enterprise_doc_rag.Common.Result.{Result}
use enterprise_doc_rag.Common.Io.{Keeps, Leads-bind, pure, ◌>>=◌}
use enterprise_doc_rag.Cache.{Qdrant}
use enterprise_doc_rag.Registry.{Document, Registry, deleted}
use enterprise_doc_rag.Registry.Consistent.{IsFresh}
use enterprise_doc_rag.Registry.Updates.{IsConsistent-with_status}
use enterprise_doc_rag.Registry.Ingested.{with_status-IsIngested}
use enterprise_doc_rag.Ingestion.Metadata.{Manifest, resolve}
use enterprise_doc_rag.Ingestion.World.{commit, session}
use enterprise_doc_rag.Ingestion.Stores.{Node, Docstore, VectorStore}
use enterprise_doc_rag.Ingestion.Pipeline.{NodeParser, purge_existing_document_data}
use enterprise_doc_rag.Ingestion.Pipeline.Sound.{IsSound, purge-IsSound}
use enterprise_doc_rag.Ingestion.Pipeline.Sound.Kept.{ingest_file-IsSound}
use enterprise_doc_rag.Ingestion.Sync.{
  discovered_in, FolderFile, SyncSummary, no_summary, noted_as, noted_deleted, is_source,
  live_under, set_deleted, delete_row, delete_missing, delete_vanished, ingest_found, ingest_all,
  sync_folder,
}

module _ {Content Score Vector : Type 0} (docstore : Docstore Content) (store : VectorStore Content)
    (qdrant : Qdrant Score Vector) where
  set_deleted-IsSound :
      (d : Document) → Keeps (IsSound docstore store qdrant) (session (set_deleted d))
  set_deleted-IsSound d w h = record {
    consistent = IsConsistent-with_status w.registry h.consistent d.id deleted;
    consistent_committed = h.consistent_committed;
    accounted = record {
      docs = λ n m. with_status-IsIngested w.registry d deleted _ (h.accounted.docs n m);
      vectors = λ n m. with_status-IsIngested w.registry d deleted _ (h.accounted.vectors n m);
    };
    accounted_committed = record {
      docs = h.accounted_committed.docs;
      vectors = h.accounted_committed.vectors;
    };
  }

  pub commit-IsSound : Keeps (IsSound docstore store qdrant) commit
  commit-IsSound w h = record {
    consistent = h.consistent;
    consistent_committed = h.consistent;
    accounted = record { docs = h.accounted.docs; vectors = h.accounted.vectors };
    accounted_committed = record { docs = h.accounted.docs; vectors = h.accounted.vectors };
  }

  pub delete_row-IsSound :
      (d : Document) → Keeps (IsSound docstore store qdrant) (delete_row docstore store qdrant d)
  unfolding delete_row
  delete_row-IsSound d =
      let P = IsSound docstore store qdrant in
      Leads-bind P P P (purge_existing_document_data docstore store qdrant d.id)
        (λ u. session (set_deleted d)) (purge-IsSound docstore store qdrant d.id) (λ w h. h)
        (λ u. set_deleted-IsSound d)

  delete_missing-IsSound :
      (discovered : List String) (ds : List Document) (s : SyncSummary)
      → Keeps (IsSound docstore store qdrant) (delete_missing docstore store qdrant discovered ds s)
  unfolding delete_missing
  delete_missing-IsSound discovered [] s w h = h
  delete_missing-IsSound discovered (d ∷ ds) s w h =
      let P = IsSound docstore store qdrant in
      let rest = λ (u : Unit {0}).
        delete_missing docstore store qdrant discovered ds (noted_deleted d.source_path s) in
      elim (Bool-cases (contains discovered d.source_path)) [
        | inl found ↦ rw found (delete_missing-IsSound discovered ds s w h)
        | inr missing ↦ rw missing (
            Leads-bind P P P (delete_row docstore store qdrant d) rest (delete_row-IsSound d)
              (λ v k. k) (λ u. delete_missing-IsSound discovered ds (noted_deleted d.source_path s))
              w h)
      ]

  module _ (parser : NodeParser Content) (embed : List (Node Content) → Result (Unit {0}))
      (embedding_dimension : ℕ) (lower : String → String) (root : String) (manifest : Manifest)
      (draw : Registry → ℕ) (fresh : (r : Registry) → IsFresh (draw r) r) where
    pub ingest_all-IsSound :
        (fs : List (FolderFile Content)) (s : SyncSummary)
        → Keeps (IsSound docstore store qdrant) (
            ingest_all docstore store qdrant parser embed embedding_dimension lower root manifest
              draw fs s)
    unfolding ingest_all
    ingest_all-IsSound [] s = λ w h. h
    ingest_all-IsSound (f ∷ fs) s =
        let P = IsSound docstore store qdrant in
        let found =
          ingest_found docstore store qdrant parser embed embedding_dimension lower root manifest
            draw f in
        Leads-bind P P P (found >>= (λ result. commit >>= (λ u. pure result)))
          (λ result.
            ingest_all docstore store qdrant parser embed embedding_dimension lower root manifest
              draw fs (noted_as result.status result.source_path s))
          (Leads-bind P P P found (λ result. commit >>= (λ u. pure result))
            (λ w h.
              ingest_file-IsSound docstore store qdrant parser embed embedding_dimension lower root
                (draw w.registry) f.reached_at f.file (resolve manifest f.parts) w h
                (fresh w.registry))
            (λ w h. h) (λ result w h. commit-IsSound w h))
          (λ w h. h) (λ result. ingest_all-IsSound fs (noted_as result.status result.source_path s))

    pub sync_folder-IsSound :
        (folder : List (FolderFile Content))
        → Keeps (IsSound docstore store qdrant) (
            sync_folder docstore store qdrant parser embed embedding_dimension lower root manifest
              draw folder)
    unfolding sync_folder
    sync_folder-IsSound folder =
        let P = IsSound docstore store qdrant in
        let files = select (is_source lower) folder in
        let discovered = discovered_in lower folder in
        Leads-bind P P P
          (ingest_all docstore store qdrant parser embed embedding_dimension lower root manifest
            draw files no_summary)
          _ (ingest_all-IsSound files no_summary) (λ w h. h)
          (λ s.
            Leads-bind P P P
              (delete_vanished docstore store qdrant parser embed embedding_dimension lower root
                manifest draw discovered s)
              (λ s'. commit >>= (λ u. pure s'))
              (λ w h. delete_missing-IsSound discovered (live_under root w.registry) s w h)
              (λ w h. h) (λ s' w h. commit-IsSound w h))
