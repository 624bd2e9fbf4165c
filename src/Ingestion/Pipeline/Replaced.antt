-- ===== src/Ingestion/Pipeline/Replaced.antt =====
-- An ingestion that returns has replaced the nodes of its document, and those alone.
use mathlib.Core.Path.{subst}
use enterprise_doc_rag.Common.{
  false, ℕ, String, ◌≡◌, refl, sym, inl, inr, true, List, length, Member, Bool-cases, string_eq,
  nat_eq, Member_of_update_where, Member-of_update_where_other, arith,
}
use enterprise_doc_rag.Common.Result.{Result, ok}
use enterprise_doc_rag.Common.Io.{ran, ◌>>=◌}
use enterprise_doc_rag.Cache.{Qdrant}
use enterprise_doc_rag.Registry.{Document, Registry, FileInfo, VersionDecision, has_id, finalize}
use enterprise_doc_rag.Registry.Consistent.{IsConsistent}
use enterprise_doc_rag.Registry.Updates.{finalize_document-IsConsistent}
use enterprise_doc_rag.Registry.Lifecycle.{IsStarted}
use enterprise_doc_rag.Registry.Ingested.{IsIngested}
use enterprise_doc_rag.Ingestion.Stores.{
  FileMetadata, Node, Docstore, VectorStore, Deletes, Replaces, Replaces-of_added, AllOf, IsOf,
  Deletes-absent,
}
use enterprise_doc_rag.Ingestion.Pipeline.{
  Loader, SourceFile, IngestResult, ingested, NodeParser, State, file_metadata, tag_all,
  purge_existing_document_data, index_documents, ingest_changed,
}
use enterprise_doc_rag.Ingestion.Pipeline.Indexed.{index_documents-IsIndexed}
use enterprise_doc_rag.Ingestion.Pipeline.Purged.{
  IsPurged, purge-IsPurged, IsUncited, invalidated-IsUncited,
}

-- The rows of other documents than `d` stay.
abbrev pub Spares : Document → Registry → Registry → Type 0
Spares d r r' =
    (x : Document) → Member x r.documents → has_id d.id x ≡ false → Member x r'.documents

module _ {Content Score Vector : Type 0} (docstore : Docstore Content) (store : VectorStore Content)
    (qdrant : Qdrant Score Vector) where
  -- Every node in the stores is of a document that has been ingested.
  pub record IsAccounted (r : Registry) (w : State docstore store qdrant) : Type 0 where
    pub docs : AllOf (IsIngested r) (docstore.nodes w.docs)
    pub vectors : AllOf (IsIngested r) (store.client.points w.vectors)

  -- What an ingestion of document `d` leaves.
  pub record IsReplaced (m : FileMetadata) (w w' : State docstore store qdrant) (d : Document)
      : Type 0 where
    pub stored : Member d w'.registry.documents
    pub docs : Replaces m (docstore.nodes w.docs) (docstore.nodes w'.docs)
    pub vectors : Replaces m (store.client.points w.vectors) (store.client.points w'.vectors)
    pub cache : IsIngested w.registry d.id → IsUncited qdrant d.id w'.cache

  -- The nodes of document `m.document_id` in the docstore are all nodes, and in the collection the
  -- leaves, that the parser makes of what the loader reads; `num_chunks` is the number of the leaves.
  pub record IsChunked (parser : NodeParser Content) (file : SourceFile Content) (loader : Loader)
      (m : FileMetadata) (w' : State docstore store qdrant) (num_chunks : ℕ) : Type 0 where
    pub contents : List Content
    pub all : List (Node Content)
    pub leaf : List (Node Content)
    pub loaded : file.load loader ≡ ok contents
    pub parsed : parser.build_hierarchical_nodes (tag_all m contents) ≡ ok (all, leaf)
    pub number : num_chunks ≡ length leaf
    pub in_docs : (n : Node Content) → Member n all → Member n (docstore.nodes w'.docs)
    pub of_docs :
        (n : Node Content) → Member n (docstore.nodes w'.docs) → IsOf m.document_id n → Member n all
    pub in_vectors : (n : Node Content) → Member n leaf → Member n (store.client.points w'.vectors)
    pub of_vectors :
        (n : Node Content)
        → Member n (store.client.points w'.vectors)
        → IsOf m.document_id n
        → Member n leaf

  record IsCleared (i : ℕ) (w w' : State docstore store qdrant) : Type 0 where
    docs : Deletes i (docstore.nodes w.docs) (docstore.nodes w'.docs) (ok tt)
    vectors : Deletes i (store.client.points w.vectors) (store.client.points w'.vectors) (ok tt)
    cache : IsIngested w.registry i → IsUncited qdrant i w'.cache

  -- The state in which the decision has been committed.
  abbrev decided : State docstore store qdrant → Registry → State docstore store qdrant
  decided w r = record w { registry = r; committed = r }

  IsCleared-of_new :
      (i : ℕ) (w : State docstore store qdrant) (r : Registry)
      → IsAccounted w.registry w
      → ¬ IsIngested w.registry i
      → IsCleared i w (decided w r)
  IsCleared-of_new i w r a new = record {
    docs =
        Deletes-absent i (docstore.nodes w.docs) (ok tt)
          (λ n m e. new (subst (IsIngested w.registry) e (a.docs n m)));
    vectors =
        Deletes-absent i (store.client.points w.vectors) (ok tt)
          (λ n m e. new (subst (IsIngested w.registry) e (a.vectors n m)));
    cache = λ g. absurd (new g);
  }

  IsCleared-of_purged :
      (i : ℕ) (w w' : State docstore store qdrant) (r : Registry)
      → IsPurged docstore store qdrant i (decided w r) w'
      → IsCleared i w w'
  IsCleared-of_purged i w w' r p = record {
    docs = p.docs;
    vectors = p.vectors;
    cache = λ g. subst (IsUncited qdrant i) (sym p.cache) (invalidated-IsUncited qdrant i w.cache);
  }

  module _ (parser : NodeParser Content) (embed : List (Node Content) → Result (Unit {0}))
      (embedding_dimension : ℕ) (lower : String → String) (root : String)
      (file : SourceFile Content) (loader : Loader) (info : FileInfo) where
    -- From the cleared stores on.
    IsReplaced-from :
        (d : Document) (r : Registry) (w v w' : State docstore store qdrant) (res : IngestResult)
        → IsStarted info d r
        → IsConsistent r
        → IsCleared d.id w v
        → v.registry ≡ r
        → index_documents docstore store qdrant parser embed embedding_dimension lower root file
            loader info d v
          ≡ (ok res, w')
        → (res.status ≡ ingested)
          × IsReplaced (file_metadata info d) w w' (finalize res.num_leaf_chunks d)
          × Spares d r w'.registry
          × IsChunked parser file loader (file_metadata info d) w' res.num_leaf_chunks
    IsReplaced-from d r w v w' res s c cleared same h =
        let (i, status, final) =
          index_documents-IsIndexed docstore store qdrant parser embed embedding_dimension lower
            root file loader info d v w' res h in
        let (out, final', c', docs) =
          finalize_document-IsConsistent r c d s.stored res.num_leaf_chunks in
        let same' : out ≡ w'.registry = cc (final, final', same) in
        (
          status,
          record {
            stored =
                subst (λ x. Member (finalize res.num_leaf_chunks d) x.documents) same'
                  (subst (Member (finalize res.num_leaf_chunks d)) (sym docs) (
                    Member_of_update_where (has_id d.id) (finalize res.num_leaf_chunks) d
                      r.documents s.stored (ground arith)));
            docs =
                Replaces-of_added (file_metadata info d) i.all _ _ _ i.all_tagged cleared.docs
                  i.docs;
            vectors =
                Replaces-of_added (file_metadata info d) i.leaf _ _ _ i.leaf_tagged cleared.vectors
                  i.vectors;
            cache = λ g. subst (IsUncited qdrant d.id) (sym i.cache) (cleared.cache g);
          },
          λ x m k.
              subst (λ y. Member x y.documents) same'
                (subst (Member x) (sym docs) (
                  Member-of_update_where_other (has_id d.id) (finalize res.num_leaf_chunks) x
                    r.documents m k)),
          record {
            contents = i.contents;
            all = i.all;
            leaf = i.leaf;
            loaded = i.loaded;
            parsed = i.parsed;
            number = i.num_chunks;
            in_docs = i.docs.added refl;
            of_docs = λ n m e. elim (i.docs.new n m) [
              | inl there ↦ absurd (cleared.docs.gone refl n there e)
              | inr added ↦ added
            ];
            in_vectors = i.vectors.added refl;
            of_vectors = λ n m e. elim (i.vectors.new n m) [
              | inl there ↦ absurd (cleared.vectors.gone refl n there e)
              | inr added ↦ added
            ];
          },
        )

    pub ingest_changed-IsReplaced :
        (decision : VersionDecision) (r : Registry) (w w' : State docstore store qdrant)
        (res : IngestResult)
        → IsStarted info decision.document r
        → IsConsistent r
        → IsAccounted w.registry w
        → (decision.is_new ≡ true → ¬ IsIngested w.registry decision.document.id)
        → ingest_changed docstore store qdrant parser embed embedding_dimension lower root file
            loader info decision
            (record w { registry = r })
          ≡ (ok res, w')
        → (res.status ≡ ingested)
          × IsReplaced
              (file_metadata info decision.document)
              w
              w'
              (finalize res.num_leaf_chunks decision.document)
          × Spares decision.document r w'.registry
          × IsChunked parser file loader
              (file_metadata info decision.document)
              w'
              res.num_leaf_chunks
    unfolding ingest_changed
    ingest_changed-IsReplaced decision r w w' res s c a new h =
        let d = decision.document in
        elim (Bool-cases decision.is_new) [
          | inl is ↦
              IsReplaced-from d r w (decided w r) w' res s c (IsCleared-of_new d.id w r a (new is))
                refl (rw is at h)
          | inr not_new ↦
              let index =
                index_documents docstore store qdrant parser embed embedding_dimension lower root
                  file loader info d in
              let h' : (purge_existing_document_data docstore store qdrant d.id >>= (λ u. index))
                    (decided w r)
                  ≡ (ok res, w') =
                rw not_new at h in
              let (u, v, purged, indexed) =
                ran (purge_existing_document_data docstore store qdrant d.id) _ _ w' res h' in
              let p = purge-IsPurged docstore store qdrant d.id (decided w r) v purged in
              IsReplaced-from d r w v w' res s c (IsCleared-of_purged d.id w v r p) p.registry
                indexed
        ]
