-- ===== src/Ingestion/Sync/Again.antt =====
-- A second synchronisation of a folder in which nothing has changed.
use mathlib.Core.Path.{subst}
use enterprise_doc_rag.Common.{
  ℕ, String, ◌≡◌, refl, sym, ap, inl, inr, true, some, List, [], ◌∷◌, contains, select, Member,
  Member-select, Option-cases, string_eq, arith,
}
use enterprise_doc_rag.Common.Result.{Result, ok}
use enterprise_doc_rag.Cache.{Qdrant}
use enterprise_doc_rag.Registry.{Document, Registry}
use enterprise_doc_rag.Registry.Consistent.{IsFresh, IsConsistent}
use enterprise_doc_rag.Registry.Lifecycle.{unchanged_of_completed}
use enterprise_doc_rag.Ingestion.Metadata.{Manifest, resolve}
use enterprise_doc_rag.Ingestion.Stores.{Node, Docstore, VectorStore}
use enterprise_doc_rag.Ingestion.Pipeline.{
  IngestResult, unchanged, NodeParser, State, loader_of, file_info, ingest_file, ingest_decided,
}
use enterprise_doc_rag.Ingestion.Pipeline.Sound.{IsSound}
use enterprise_doc_rag.Ingestion.Sync.{
  discovered_in, FolderFile, SyncSummary, no_summary, is_source, is_live_under, live_under,
  noted_as, delete_missing, ingest_committed, ingest_all, sync_folder,
}
use enterprise_doc_rag.Ingestion.Sync.Sound.{sync_folder-IsSound}
use enterprise_doc_rag.Ingestion.Sync.Completed.{IsCompleted, AreDistinct, supported-loader}
use enterprise_doc_rag.Ingestion.Sync.Synced.{sync_folder-IsSynced}

abbrev pub noted_unchanged :
    {Content : Type 0} → List (FolderFile Content) → SyncSummary → SyncSummary
noted_unchanged [] s = s
noted_unchanged (f ∷ fs) s = noted_unchanged fs (noted_as unchanged f.file.relative_path s)

noted_unchanged_lem :
    {Content : Type 0} (fs : List (FolderFile Content)) (s : SyncSummary)
    → ((noted_unchanged fs s).ingested ≡ s.ingested)
      × ((noted_unchanged fs s).deleted ≡ s.deleted)
      × ((noted_unchanged fs s).skipped ≡ s.skipped)
noted_unchanged_lem [] s = (refl, refl, refl)
noted_unchanged_lem (f ∷ fs) s = noted_unchanged_lem fs (noted_as unchanged f.file.relative_path s)

module _ {Content Score Vector : Type 0} (docstore : Docstore Content) (store : VectorStore Content)
    (qdrant : Qdrant Score Vector) where
  -- Every row that the query finds is of a file that was discovered.
  delete_missing_none :
      (discovered : List String) (ds : List Document) (s : SyncSummary)
      (w : State docstore store qdrant)
      → ((d : Document) → Member d ds → contains discovered d.source_path ≡ true)
      → delete_missing docstore store qdrant discovered ds s w ≡ (ok s, w)
  unfolding delete_missing
  delete_missing_none discovered [] s w h = refl
  delete_missing_none discovered (d ∷ ds) s w h =
      rw (h d (inl refl)) (delete_missing_none discovered ds s w (λ x m. h x (inr m)))

  module _ (parser : NodeParser Content) (embed : List (Node Content) → Result (Unit {0}))
      (embedding_dimension : ℕ) (lower : String → String) (root : String) (manifest : Manifest)
      (draw : Registry → ℕ) (fresh : (r : Registry) → IsFresh (draw r) r) where
    ingest_completed :
        (f : FolderFile Content) (w : State docstore store qdrant)
        → is_source lower f ≡ true
        → IsConsistent w.registry
        → w.committed ≡ w.registry
        → IsCompleted manifest f w.registry
        → (res : IngestResult) × (ingest_committed docstore store qdrant parser embed
              embedding_dimension lower root manifest draw f w
            ≡ (ok res, w))
          × (res.status ≡ unchanged)
          × (res.source_path ≡ f.file.relative_path)
    unfolding ingest_file ingest_decided
    ingest_completed f w source c settled done =
        elim (Option-cases (loader_of (lower f.file.suffix))) [
          | inl unsupported ↦
              absurd (supported-loader (lower f.file.suffix) (ground (arith, source)) unsupported)
          | inr (loader, supported) ↦
              let info =
                file_info root (lower f.file.suffix) f.file (resolve manifest f.parts)
                  done.content_hash done.size_bytes in
              let got =
                unchanged_of_completed (draw w.registry) f.reached_at info w.registry c
                  done.document done.stored done.key done.hash done.status in
              let back : record w { committed = w.registry } ≡ w =
                ap (λ x. record w { committed = x }) (sym settled) in
              let res : IngestResult = record {
                source_path = f.file.relative_path;
                status = unchanged;
                num_leaf_chunks = 0;
                document_id = some done.document.id;
              } in
              rw (supported, done.read, got) (res, ap (λ v. (ok res, v)) back, refl, refl)
        ]

    ingest_all_completed :
        (fs : List (FolderFile Content)) (s : SyncSummary) (w : State docstore store qdrant)
        → IsConsistent w.registry
        → w.committed ≡ w.registry
        → ((f : FolderFile Content)
            → Member f fs
            → (is_source lower f ≡ true) × IsCompleted manifest f w.registry)
        → ingest_all docstore store qdrant parser embed embedding_dimension lower root manifest draw
            fs s w
          ≡ (ok (noted_unchanged fs s), w)
    unfolding ingest_all
    ingest_all_completed [] s w c settled done = refl
    ingest_all_completed (f ∷ fs) s w c settled done =
        let (source, completed) = done f (inl refl) in
        let (res, e, status, path) = ingest_completed f w source c settled completed in
        let next =
          ingest_all_completed fs (noted_as unchanged f.file.relative_path s) w c settled
            (λ g m. done g (inr m)) in
        rw (e, status, path) next

    -- After a synchronisation that returned, of a folder whose files have different paths, from
    -- sound stores and with fresh ids, a second one of the same folder ingests, deletes and skips
    -- nothing, and leaves all stores and tables as they are.
    pub sync_folder_again :
        (folder : List (FolderFile Content)) (w w' : State docstore store qdrant) (s' : SyncSummary)
        → AreDistinct (select (is_source lower) folder)
        → IsSound docstore store qdrant w
        → sync_folder docstore store qdrant parser embed embedding_dimension lower root manifest
            draw folder w
          ≡ (ok s', w')
        → (s : SyncSummary) × (sync_folder docstore store qdrant parser embed embedding_dimension
              lower root manifest draw folder w'
            ≡ (ok s, w'))
          × (s.ingested ≡ [])
          × (s.deleted ≡ [])
          × (s.skipped ≡ [])
    unfolding sync_folder
    sync_folder_again folder w w' s' distinct sound h =
        let files = select (is_source lower) folder in
        let discovered = discovered_in lower folder in
        let synced =
          sync_folder-IsSynced docstore store qdrant parser embed embedding_dimension lower root
            manifest draw fresh folder w w' s' distinct sound h in
        let sound' : IsSound docstore store qdrant w' =
          subst (λ x. IsSound docstore store qdrant x.1) h
            (sync_folder-IsSound docstore store qdrant parser embed embedding_dimension lower root
              manifest draw fresh folder w sound) in
        let all =
          ingest_all_completed files no_summary w' sound'.consistent synced.committed
            (λ f m. ((Member-select (is_source lower) f folder m).1, synced.completed f m)) in
        let s = noted_unchanged files no_summary in
        let none_missing = delete_missing_none discovered (live_under root w'.registry) s w' (λ d m.
          let (n, live) = Member-select (is_live_under root) d w'.registry.documents m in
          synced.listed d n (ground (arith, live)) (ground (arith, live))) in
        let back : record w' { committed = w'.registry } ≡ w' =
          ap (λ x. record w' { committed = x }) (sym synced.committed) in
        let (i, d, k) = noted_unchanged_lem files no_summary in
        (s, rw (all, none_missing) (ap (λ v. (ok s, v)) back), i, d, k)
