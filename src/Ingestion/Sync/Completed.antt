-- ===== src/Ingestion/Sync/Completed.antt =====
-- That the loop over the files of a folder leaves each of them completed.
use mathlib.Core.Path.{subst}
use enterprise_doc_rag.Common.{
  ℕ, String, ◌≡◌, ◌≢◌, refl, sym, ◌∙◌, inl, inr, true, none, List, [], ◌∷◌, contains, Member, All,
  string_eq, arith,
}
use enterprise_doc_rag.Common.Result.{Result, ok}
use enterprise_doc_rag.Common.Io.{ran, returned, pure, ◌>>=◌}
use enterprise_doc_rag.Cache.{Qdrant}
use enterprise_doc_rag.Registry.{Document, Registry, completed, has_key}
use enterprise_doc_rag.Registry.Consistent.{IsFresh, Member_of_found}
use enterprise_doc_rag.Ingestion.Metadata.{Manifest, resolve}
use enterprise_doc_rag.Ingestion.World.{commit}
use enterprise_doc_rag.Ingestion.Stores.{Node, Docstore, VectorStore}
use enterprise_doc_rag.Ingestion.Pipeline.{IngestResult, NodeParser, State, loader_of}
use enterprise_doc_rag.Ingestion.Pipeline.Sound.{IsSound}
use enterprise_doc_rag.Ingestion.Pipeline.Sound.Kept.{ingest_file-IsSound}
use enterprise_doc_rag.Ingestion.Pipeline.UpToDate.{
  Returned, skipped_file, unchanged_file, ingested_file, ingest_file-Returned,
}
use enterprise_doc_rag.Ingestion.Sync.Sound.{commit-IsSound}
use enterprise_doc_rag.Ingestion.Sync.{
  FolderFile, SyncSummary, supported_extensions, is_source, noted_as, ingest_found,
  ingest_committed, ingest_all,
}

-- The row of the file is completed, with the hash of its contents.
pub record IsCompleted {Content : Type 0} (manifest : Manifest) (f : FolderFile Content)
    (r : Registry) : Type 0 where
  pub document : Document
  pub stored : Member document r.documents
  pub key : has_key (resolve manifest f.parts).tenant_id f.file.relative_path document ≡ true
  pub status : document.status ≡ completed
  pub content_hash : String
  pub size_bytes : ℕ
  pub read : f.file.read ≡ ok (content_hash, size_bytes)
  pub hash : document.content_hash ≡ content_hash

abbrev pub AreDistinct : {Content : Type 0} → List (FolderFile Content) → Type 0
AreDistinct [] = Unit
AreDistinct (f ∷ fs) = All (λ g. g.file.relative_path ≢ f.file.relative_path) fs × AreDistinct fs

pub supported-loader :
    (ext : String) → contains supported_extensions ext ≡ true → loader_of ext ≢ none
supported-loader ext h = ground arith

All-Member : {A : Type 0} (P : A → Type 0) (xs : List A) (x : A) → All P xs → Member x xs → P x
All-Member P [] x a m = absurd m
All-Member P (y ∷ xs) x (p, a) (inl e) = subst P (sym e) p
All-Member P (y ∷ xs) x (p, a) (inr m) = All-Member P xs x a m

module _ {Content Score Vector : Type 0} (docstore : Docstore Content) (store : VectorStore Content)
    (qdrant : Qdrant Score Vector) (parser : NodeParser Content)
    (embed : List (Node Content) → Result (Unit {0})) (embedding_dimension : ℕ)
    (lower : String → String) (root : String) (manifest : Manifest) (draw : Registry → ℕ)
    (fresh : (r : Registry) → IsFresh (draw r) r) where
  Returned-IsCompleted :
      (f : FolderFile Content) (w w' : State docstore store qdrant) (res : IngestResult)
      → is_source lower f ≡ true
      → IsSound docstore store qdrant w
      → Returned docstore store qdrant parser lower root f.file (resolve manifest f.parts) w w' res
      → IsCompleted manifest f w'.registry
        × ((x : Document)
            → Member x w.registry.documents
            → f.file.relative_path ≢ x.source_path
            → Member x w'.registry.documents)
  Returned-IsCompleted f w w' res source sound (skipped_file unsupported status same) =
      absurd (supported-loader (lower f.file.suffix) (ground (arith, source)) unsupported)
  Returned-IsCompleted f w w' res source sound
        (unchanged_file status same content_hash size_bytes read d found hash done) =
      let (m, k) = Member_of_found _ _ w.registry d sound.consistent found in
      subst
        (λ v.
          IsCompleted manifest f v.registry
          × ((x : Document)
              → Member x w.registry.documents
              → f.file.relative_path ≢ x.source_path
              → Member x v.registry.documents))
        (sym same)
        (
          record {
            document = d;
            stored = m;
            key = k;
            status = done;
            content_hash = content_hash;
            size_bytes = size_bytes;
            read = read;
            hash = hash;
          },
          λ x n ne. n,
        )
  Returned-IsCompleted f w w' res source sound (ingested_file status u) = (
    record {
      document = u.document;
      stored = u.replaced.stored;
      key = u.key;
      status = u.status;
      content_hash = u.content_hash;
      size_bytes = u.size_bytes;
      read = u.read;
      hash = u.hash;
    },
    λ x n ne. u.spared x n (ground (arith, ne)),
  )

  -- One file of the loop.
  ingest_committed-IsCompleted :
      (f : FolderFile Content) (w w' : State docstore store qdrant) (res : IngestResult)
      → is_source lower f ≡ true
      → IsSound docstore store qdrant w
      → ingest_committed docstore store qdrant parser embed embedding_dimension lower root manifest
          draw f w
        ≡ (ok res, w')
      → IsSound docstore store qdrant w'
        × IsCompleted manifest f w'.registry
        × ((x : Document)
            → Member x w.registry.documents
            → f.file.relative_path ≢ x.source_path
            → Member x w'.registry.documents)
  ingest_committed-IsCompleted f w w' res source sound h =
      let found =
        ingest_found docstore store qdrant parser embed embedding_dimension lower root manifest draw
          f in
      let (res1, v, ingested, h1) =
        ran found (λ result. commit >>= (λ u. pure result)) w w' res h in
      let same = (returned res1 res (record v { committed = v.registry }) w' h1).1 in
      let s =
        ingest_file-IsSound docstore store qdrant parser embed embedding_dimension lower root
          (draw w.registry) f.reached_at f.file (resolve manifest f.parts) w sound
          (fresh w.registry) in
      let s' : IsSound docstore store qdrant v =
        subst (λ x. IsSound docstore store qdrant x.1) ingested s in
      let (c, spares) = Returned-IsCompleted f w v res1 source sound (
        ingest_file-Returned docstore store qdrant parser embed embedding_dimension lower root
          (draw w.registry) f.reached_at f.file (resolve manifest f.parts) w v res1 sound.consistent
          (fresh w.registry) sound.accounted ingested) in
      subst
        (λ x.
          IsSound docstore store qdrant x
          × IsCompleted manifest f x.registry
          × ((y : Document)
              → Member y w.registry.documents
              → f.file.relative_path ≢ y.source_path
              → Member y x.registry.documents))
        same (commit-IsSound docstore store qdrant v s', c, spares)

  pub record AreCompleted (fs : List (FolderFile Content)) (w w' : State docstore store qdrant)
      : Type 0 where
    pub completed : (f : FolderFile Content) → Member f fs → IsCompleted manifest f w'.registry
    pub spared :
        (x : Document)
        → Member x w.registry.documents
        → ((f : FolderFile Content) → Member f fs → f.file.relative_path ≢ x.source_path)
        → Member x w'.registry.documents

  -- A completed row under another path stays.
  kept-IsCompleted :
      (f : FolderFile Content) (fs : List (FolderFile Content)) (w w' : State docstore store qdrant)
      → All (λ g. g.file.relative_path ≢ f.file.relative_path) fs
      → IsCompleted manifest f w.registry
      → AreCompleted fs w w'
      → IsCompleted manifest f w'.registry
  kept-IsCompleted f fs w w' apart c a =
      let path : c.document.source_path ≡ f.file.relative_path = ground (arith, c.key) in
      record {
        document = c.document;
        stored = a.spared c.document c.stored (λ g m e.
            All-Member (λ g. g.file.relative_path ≢ f.file.relative_path) fs g apart m (e ∙ path));
        key = c.key;
        status = c.status;
        content_hash = c.content_hash;
        size_bytes = c.size_bytes;
        read = c.read;
        hash = c.hash;
      }

  pub ingest_all-AreCompleted :
      (fs : List (FolderFile Content)) (s s' : SyncSummary) (w w' : State docstore store qdrant)
      → AreDistinct fs
      → ((f : FolderFile Content) → Member f fs → is_source lower f ≡ true)
      → IsSound docstore store qdrant w
      → ingest_all docstore store qdrant parser embed embedding_dimension lower root manifest draw
          fs s w
        ≡ (ok s', w')
      → AreCompleted fs w w'
  unfolding ingest_all
  ingest_all-AreCompleted [] s s' w w' distinct source sound h =
      subst (AreCompleted [] w) (returned s s' w w' h).1
        (record { completed = λ f m. absurd m; spared = λ x m k. m })
  ingest_all-AreCompleted (f ∷ fs) s s' w w' (apart, distinct) source sound h =
      let one =
        ingest_committed docstore store qdrant parser embed embedding_dimension lower root manifest
          draw f in
      let (res, v, ingested, h1) = ran one _ w w' s' h in
      let (sound', c, spares) =
        ingest_committed-IsCompleted f w v res (source f (inl refl)) sound ingested in
      let a =
        ingest_all-AreCompleted fs (noted_as res.status res.source_path s) s' v w' distinct
          (λ g m. source g (inr m)) sound' h1 in
      record {
        completed = λ g m. elim m [
          | inl e ↦
              subst (λ x. IsCompleted manifest x w'.registry) (sym e)
                (kept-IsCompleted f fs v w' apart c a)
          | inr n ↦ a.completed g n
        ];
        spared = λ x m k. a.spared x (spares x m (k f (inl refl))) (λ g n. k g (inr n));
      }
