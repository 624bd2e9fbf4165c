-- ===== src/Ingestion/Pipeline/Returns.antt =====
-- That an ingestion returns when the services that it calls do.
use enterprise_doc_rag.Common.{
  ℕ, String, ◌≡◌, refl, inl, inr, List, length, Member, Bool-cases, Option-cases,
}
use enterprise_doc_rag.Common.Result.{Result, ok}
use enterprise_doc_rag.Common.Io.{Io, ◌>>=◌}
use enterprise_doc_rag.Retrieval.Collections.{ensure_collection}
use enterprise_doc_rag.Cache.{Qdrant}
use enterprise_doc_rag.Registry.{
  Document, Registry, FileInfo, VersionDecision, finalize_document, get_or_create_document,
}
use enterprise_doc_rag.Registry.Consistent.{
  IsConsistent, IsFresh, get_or_create_document-IsConsistent,
}
use enterprise_doc_rag.Registry.Updates.{finalize_document-IsConsistent}
use enterprise_doc_rag.Registry.Lifecycle.{IsStarted, IsStarted-of_changed}
use enterprise_doc_rag.Ingestion.Metadata.{ResolvedMetadata}
use enterprise_doc_rag.Ingestion.World.{session}
use enterprise_doc_rag.Ingestion.Stores.{Node, Docstore, VectorStore}
use enterprise_doc_rag.Ingestion.Pipeline.{
  Loader, loader_of, SourceFile, IngestResult, NodeParser, State, file_info, file_metadata, tag_all,
  delete_vectors, purge_existing_document_data, index_documents, ingest_changed, ingest_decided,
  ingest_file,
}

-- A call returns, in a state where the session is as it was.
module _ {Content Score Vector : Type 0} (docstore : Docstore Content) (store : VectorStore Content)
    (qdrant : Qdrant Score Vector) (parser : NodeParser Content)
    (embed : List (Node Content) → Result (Unit {0})) where
  -- No call of a service raises.
  pub record AreUp : Type 0 where
    pub delete_ref_doc : (i : ℕ) (s : docstore.State) → (docstore.delete_ref_doc i s).0 ≡ ok tt
    pub add_documents :
        (ns : List (Node Content)) (s : docstore.State) → (docstore.add_documents ns s).0 ≡ ok tt
    pub delete_points : (i : ℕ) (s : store.client.State) → (store.delete_points i s).0 ≡ ok tt
    pub add : (ns : List (Node Content)) (s : store.client.State) → (store.add ns s).0 ≡ ok tt
    pub parse :
        (ds : List (Node Content))
        → (out : List (Node Content) × List (Node Content)) × (parser.build_hierarchical_nodes ds
            ≡ ok out)
    pub embedded : (ns : List (Node Content)) → embed ns ≡ ok tt

  abbrev Returns :
      {A : Type 0} → Io (State docstore store qdrant) A → State docstore store qdrant → Type 0
  Returns {A} step w = (a : A) × ((step w).0 ≡ ok a)

  purge-Returns :
      (up : AreUp) (i : ℕ) (w : State docstore store qdrant)
      → ((purge_existing_document_data docstore store qdrant i w).0 ≡ ok tt)
        × ((purge_existing_document_data docstore store qdrant i w).1.registry ≡ w.registry)
  unfolding purge_existing_document_data delete_vectors
  purge-Returns up i w = elim (Bool-cases (store.client.collection_exists w.vectors)) [
    | inl there ↦ rw (up.delete_ref_doc i w.docs, there, up.delete_points i w.vectors) (refl, refl)
    | inr missing ↦ rw (up.delete_ref_doc i w.docs, missing) (refl, refl)
  ]

  module _ (up : AreUp) (embedding_dimension : ℕ) (lower : String → String) (root : String)
      (file : SourceFile Content) (loader : Loader) (contents : List Content)
      (loaded : file.load loader ≡ ok contents) (info : FileInfo) where
    index_documents-Returns :
        (d : Document) (r : Registry) (w : State docstore store qdrant)
        → IsConsistent r
        → Member d r.documents
        → w.registry ≡ r
        → Returns
            (index_documents docstore store qdrant parser embed embedding_dimension lower root file
              loader info d)
            w
    unfolding index_documents
    index_documents-Returns d r w c m same =
        let ((all, leaf), parsed) = up.parse (tag_all (file_metadata info d) contents) in
        let (out, final, c', docs) = finalize_document-IsConsistent r c d m (length leaf) in
        let final' : finalize_document d (length leaf) w.registry ≡ ok out = rw same final in
        rw
          (
            loaded,
            parsed,
            up.add_documents all w.docs,
            up.embedded leaf,
            up.add leaf (ensure_collection store.client embedding_dimension w.vectors),
            final',
          )
          (_, refl)

    changed-Returns :
        (decision : VersionDecision) (r : Registry) (w : State docstore store qdrant)
        → IsConsistent r
        → IsStarted info decision.document r
        → Returns
            (ingest_changed docstore store qdrant parser embed embedding_dimension lower root file
              loader info decision)
            (record w { registry = r })
    unfolding ingest_changed
    changed-Returns decision r w c s =
        let d = decision.document in
        let begun : State docstore store qdrant = record w { registry = r; committed = r } in
        elim (Bool-cases decision.is_new) [
          | inl new ↦ rw new (index_documents-Returns d r begun c s.stored refl)
          | inr old ↦
              let (purged, same) = purge-Returns up d.id begun in
              rw (old, purged)
                (index_documents-Returns d r
                  (purge_existing_document_data docstore store qdrant d.id begun).1 c s.stored same)
        ]

    decided-Returns :
        (new_id now : ℕ) (w : State docstore store qdrant)
        → IsConsistent w.registry
        → IsFresh new_id w.registry
        → Returns
            (session (get_or_create_document new_id now info)
              >>= ingest_decided docstore store qdrant parser embed embedding_dimension lower root
                  file loader info)
            w
    unfolding ingest_decided
    decided-Returns new_id now w c fresh =
        let (out, got, c') =
          get_or_create_document-IsConsistent now info w.registry c new_id fresh in
        elim (Bool-cases out.0.changed) [
          | inl changed ↦
              rw (got, changed)
                (changed-Returns out.0 out.1 w c'
                  (IsStarted-of_changed new_id now info w.registry c out got changed))
          | inr kept ↦ rw (got, kept) (_, refl)
        ]

  -- If no call of a service raises and the file can be read and loaded, then from consistent tables
  -- and with a fresh id the ingestion returns.
  pub ingest_file-Returns :
      (up : AreUp) (embedding_dimension : ℕ) (lower : String → String) (root : String)
      (new_id now : ℕ) (file : SourceFile Content) (resolved : ResolvedMetadata)
      (w : State docstore store qdrant)
      → IsConsistent w.registry
      → IsFresh new_id w.registry
      → (out : String × ℕ) → file.read ≡ ok out
      → ((loader : Loader) → (contents : List Content) × (file.load loader ≡ ok contents))
      → (res : IngestResult) × ((ingest_file docstore store qdrant parser embed embedding_dimension
            lower root new_id now file resolved w).0
          ≡ ok res)
  unfolding ingest_file
  ingest_file-Returns up embedding_dimension lower root new_id now file resolved w c fresh
        (content_hash, size_bytes) read loads =
      elim (Option-cases (loader_of (lower file.suffix))) [
        | inl unsupported ↦ rw unsupported (_, refl)
        | inr (loader, supported) ↦
            let (contents, loaded) = loads loader in
            let info = file_info root (lower file.suffix) file resolved content_hash size_bytes in
            rw (supported, read)
              (decided-Returns up embedding_dimension lower root file loader contents loaded info
                new_id now w c fresh)
      ]
