-- ===== src/Ingestion/Sync/Synced.antt =====
-- What a synchronisation of a folder leaves.
use mathlib.Core.Path.{subst}
use enterprise_doc_rag.Common.{
  ◌≢◌, ℕ, String, ◌≡◌, refl, ap, ◌∙◌, ◌⊎◌, inl, inr, true, false, List, [], ◌∷◌, map, contains,
  select, Member, Member-select, Member-of_select, string_eq, arith,
}
use enterprise_doc_rag.Common.Result.{Result, ok}
use enterprise_doc_rag.Common.Io.{ran, returned, pure, ◌>>=◌}
use enterprise_doc_rag.Cache.{Qdrant}
use enterprise_doc_rag.Registry.{is_deleted, Document, Registry}
use enterprise_doc_rag.Registry.Consistent.{IsConsistent, IsFresh, eq_of_id}
use enterprise_doc_rag.Ingestion.Metadata.{Manifest}
use enterprise_doc_rag.Ingestion.World.{commit}
use enterprise_doc_rag.Ingestion.Stores.{Node, Docstore, VectorStore}
use enterprise_doc_rag.Ingestion.Pipeline.{NodeParser, State}
use enterprise_doc_rag.Ingestion.Pipeline.Sound.{IsSound}
use enterprise_doc_rag.Ingestion.Sync.{
  discovered_in, FolderFile, SyncSummary, no_summary, is_source, is_live_under, live_under,
  delete_vanished, ingest_all, sync_folder,
}
use enterprise_doc_rag.Ingestion.Sync.Deleted.{IsGone, delete_missing-IsCleaned}
use enterprise_doc_rag.Ingestion.Sync.Completed.{IsCompleted, AreDistinct, ingest_all-AreCompleted}
use enterprise_doc_rag.Ingestion.Sync.Sound.{ingest_all-IsSound}

contains-discovered :
    {Content : Type 0} (f : FolderFile Content) (files : List (FolderFile Content))
    → Member f files
    → contains (map (λ (g : FolderFile Content). g.file.relative_path) files) f.file.relative_path
      ≡ true
contains-discovered f [] m = absurd m
contains-discovered f (g ∷ files) (inl e) = rw e (ground arith)
contains-discovered f (g ∷ files) (inr m) = ground (arith, contains-discovered f files m)

module _ {Content Score Vector : Type 0} (docstore : Docstore Content) (store : VectorStore Content)
    (qdrant : Qdrant Score Vector) where
  module _ (parser : NodeParser Content) (embed : List (Node Content) → Result (Unit {0}))
      (embedding_dimension : ℕ) (lower : String → String) (root : String) (manifest : Manifest)
      (draw : Registry → ℕ) where
    -- From the state `between`, in which the files have been ingested, to the end `w'`.
    pub record IsSynced (folder : List (FolderFile Content)) (w w' : State docstore store qdrant)
        : Type 0 where
      pub between : State docstore store qdrant
      pub summary : SyncSummary
      pub ingested_all :
          ingest_all docstore store qdrant parser embed embedding_dimension lower root manifest draw
            (select (is_source lower) folder)
            no_summary
            w
          ≡ (ok summary, between)
      pub committed : w'.committed ≡ w'.registry
      pub completed :
          (f : FolderFile Content)
          → Member f (select (is_source lower) folder)
          → IsCompleted manifest f w'.registry
      pub listed :
          (d : Document)
          → Member d w'.registry.documents
          → d.ingestion_root ≡ root
          → is_deleted d.status ≡ false
          → contains (discovered_in lower folder) d.source_path ≡ true
      pub gone :
          (d : Document)
          → Member d between.registry.documents
          → d.ingestion_root ≡ root
          → is_deleted d.status ≡ false
          → contains (discovered_in lower folder) d.source_path ≡ false
          → IsGone docstore store qdrant d.id w'
      pub spared :
          (d : Document)
          → Member d between.registry.documents
          → (d.ingestion_root ≢ root)
            ⊎ ((is_deleted d.status ≡ true)
                ⊎ (contains (discovered_in lower folder) d.source_path ≡ true))
          → Member d w'.registry.documents

    -- Why the query or the comparison leaves a row out.
    reason :
        (discovered : List String) (d : Document)
        → (d.ingestion_root ≢ root)
          ⊎ ((is_deleted d.status ≡ true) ⊎ (contains discovered d.source_path ≡ true))
        → (is_live_under root d ≡ false) ⊎ (contains discovered d.source_path ≡ true)
    reason discovered d (inl elsewhere) = inl (ground (arith, elsewhere))
    reason discovered d (inr (inl gone)) = inl (ground (arith, gone))
    reason discovered d (inr (inr found)) = inr found

    vanished-spared :
        (discovered : List String) (r : Registry) (d : Document)
        → IsConsistent r
        → Member d r.documents
        → (is_live_under root d ≡ false) ⊎ (contains discovered d.source_path ≡ true)
        → (x : Document) → Member x (live_under root r)
        → x.id ≡ d.id
        → contains discovered x.source_path ≡ true
    vanished-spared discovered r d c m k x n e =
        let (mx, live) = Member-select (is_live_under root) x r.documents n in
        let same : x ≡ d = eq_of_id r c d x m mx (ground (arith, e)) in
        elim k [
          | inl dead ↦ absurd (cc (dead, live, ap (is_live_under root) same))
          | inr found ↦ ap (λ y. contains discovered y.source_path) same ∙ found
        ]

    module _ (fresh : (r : Registry) → IsFresh (draw r) r) where
      -- A synchronisation that returns, of a folder whose files have different paths, from sound
      -- stores and with fresh ids: the row of every supported file is completed with the hash of
      -- its contents; every row under the root that is not deleted is of a file that was found; a
      -- row under the root whose file has gone when the files have been ingested has no node left
      -- in either store; every other row is then kept as it is; and all is committed.
      pub sync_folder-IsSynced :
          (folder : List (FolderFile Content)) (w w' : State docstore store qdrant)
          (s' : SyncSummary)
          → AreDistinct (select (is_source lower) folder)
          → IsSound docstore store qdrant w
          → sync_folder docstore store qdrant parser embed embedding_dimension lower root manifest
              draw folder w
            ≡ (ok s', w')
          → IsSynced folder w w'
      unfolding sync_folder
      sync_folder-IsSynced folder w w' s' distinct sound h =
          let files = select (is_source lower) folder in
          let discovered = discovered_in lower folder in
          let (s, v, all, h1) =
            ran
              (ingest_all docstore store qdrant parser embed embedding_dimension lower root manifest
                draw files no_summary)
              _ w w' s' h in
          let (s1, u, cleaned, h2) =
            ran
              (delete_vanished docstore store qdrant parser embed embedding_dimension lower root
                manifest draw discovered s)
              (λ s1. commit >>= (λ x. pure s1)) v w' s' h1 in
          let same = (returned s1 s' (record u { committed = u.registry }) w' h2).1 in
          let c =
            delete_missing-IsCleaned docstore store qdrant root discovered
              (live_under root v.registry) s s1 v u cleaned in
          let sound_v : IsSound docstore store qdrant v =
            subst (λ x. IsSound docstore store qdrant x.1) all
              (ingest_all-IsSound docstore store qdrant parser embed embedding_dimension lower root
                manifest draw fresh files no_summary w sound) in
          subst (IsSynced folder w) same (record {
            between = v;
            summary = s;
            ingested_all = all;
            committed = refl;
            completed = λ f m.
                let a =
                  ingest_all-AreCompleted docstore store qdrant parser embed embedding_dimension
                    lower root manifest draw fresh files no_summary s w v distinct
                    (λ g n. (Member-select (is_source lower) g folder n).1) sound all in
                let x = a.completed f m in
                let path : x.document.source_path ≡ f.file.relative_path = ground (arith, x.key) in
                record {
                  document = x.document;
                  stored = c.spared x.document x.stored (
                      vanished-spared discovered v.registry x.document sound_v.consistent x.stored
                        (inr (ap (contains discovered) path ∙ contains-discovered f files m)));
                  key = x.key;
                  status = x.status;
                  content_hash = x.content_hash;
                  size_bytes = x.size_bytes;
                  read = x.read;
                  hash = x.hash;
                };
            listed = λ d m under live.
                elim (c.listed
                  (λ x n k. inr (
                    x,
                    Member-of_select (is_live_under root) x v.registry.documents n k,
                    refl,
                    refl,
                  ))
                  d m (ground (arith, under, live))) [
                    | inl found ↦ found
                    | inr (x, n, e, p) ↦ absurd n
                  ];
            gone = λ d m under live missing.
                let g =
                  c.gone d
                    (Member-of_select (is_live_under root) d v.registry.documents m
                      (ground (arith, under, live)))
                    missing in
                record { docs = g.docs; vectors = g.vectors };
            spared = λ d m k. c.spared d m (
                vanished-spared discovered v.registry d sound_v.consistent m
                  (reason discovered d k));
          })
