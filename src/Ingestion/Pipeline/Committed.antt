-- ===== src/Ingestion/Pipeline/Committed.antt =====
-- The tables that an ingestion leaves committed, whatever it returns.
use mathlib.Core.Path.{subst}
use enterprise_doc_rag.Common.{
  ℕ, String, ◌≡◌, refl, sym, inl, inr, true, List, length, Member, Bool-cases, Option-cases,
}
use enterprise_doc_rag.Common.Result.{Result, ok, Result-cases}
use enterprise_doc_rag.Common.Io.{pure, lift, Keeps, Leads-bind, Leads-lift, ◌>>=◌}
use enterprise_doc_rag.Retrieval.Collections.{ensure_collection}
use enterprise_doc_rag.Cache.{Qdrant}
use enterprise_doc_rag.Registry.{
  Document, Registry, FileInfo, VersionDecision, has_key, get_or_create_document,
}
use enterprise_doc_rag.Registry.Consistent.{
  IsConsistent, IsFresh, get_or_create_document-IsConsistent,
}
use enterprise_doc_rag.Registry.Lifecycle.{IsStarted-of_changed}
use enterprise_doc_rag.Ingestion.Metadata.{ResolvedMetadata}
use enterprise_doc_rag.Ingestion.World.{session, on_docs, on_vectors}
use enterprise_doc_rag.Ingestion.Stores.{Node, Docstore, VectorStore}
use enterprise_doc_rag.Ingestion.Pipeline.{
  Loader, loader_of, SourceFile, IngestResult, NodeParser, State, file_info, file_metadata, tag_all,
  finalized, purge_existing_document_data, index_documents, ingest_changed, ingest_decided,
  ingest_supported, ingest_file,
}
use enterprise_doc_rag.Ingestion.Pipeline.Purged.{purge-Keeps}

-- There is a row with the tenant and the path.
pub record HasRow (tenant path : String) (r : Registry) : Type 0 where
  pub document : Document
  pub stored : Member document r.documents
  pub key : has_key tenant path document ≡ true

module _ {Content Score Vector : Type 0} (docstore : Docstore Content) (store : VectorStore Content)
    (qdrant : Qdrant Score Vector) where
  abbrev HasCommitted : Registry → State docstore store qdrant → Type 0
  HasCommitted r w = w.committed ≡ r

  session-committed :
      {A : Type 0} (r : Registry) (call : Registry → Result (A × Registry))
      → Keeps (HasCommitted r) (session call)
  session-committed r call w h = elim (Result-cases (call w.registry)) [
    | inl (e, raised) ↦ rw raised h
    | inr (out, done) ↦ rw done h
  ]

  module _ (parser : NodeParser Content) (embed : List (Node Content) → Result (Unit {0}))
      (embedding_dimension : ℕ) (lower : String → String) (root : String)
      (file : SourceFile Content) where
    module _ (loader : Loader) (info : FileInfo) (r : Registry) where
      stored-committed :
          (d : Document) (all leaf : List (Node Content)) (res : IngestResult)
          → Keeps (HasCommitted r) (
              on_docs (docstore.add_documents all) >>= (λ u. lift (embed leaf) >>= (λ u.
                on_vectors (λ s. (ok tt, ensure_collection store.client embedding_dimension s))
                >>= (λ u.
                    on_vectors (store.add leaf)
                    >>= (λ u. session (finalized d (length leaf)) >>= (λ u. pure res))))))
      stored-committed d all leaf res =
          let P = HasCommitted r in
          let last = λ (u : Unit {0}). session (finalized d (length leaf)) >>= (λ u. pure res) in
          let add = λ (u : Unit {0}). on_vectors (store.add leaf) >>= last in
          let ensure = λ (u : Unit {0}).
            on_vectors (λ s. (ok tt, ensure_collection store.client embedding_dimension s))
            >>= add in
          let embedding = λ (u : Unit {0}). lift (embed leaf) >>= ensure in
          Leads-bind P P P (on_docs (docstore.add_documents all)) embedding (λ w h. h) (λ w h. h)
            (λ u.
              Leads-lift P P P (embed leaf) ensure (λ w h. h)
                (λ v e.
                  Leads-bind P P P
                    (on_vectors
                      (λ s. (ok tt, ensure_collection store.client embedding_dimension s)))
                    add (λ w h. h) (λ w h. h)
                    (λ u.
                      Leads-bind P P P (on_vectors (store.add leaf)) last (λ w h. h) (λ w h. h)
                        (λ u.
                          Leads-bind P P P (session (finalized d (length leaf))) (λ u. pure res)
                            (session-committed r (finalized d (length leaf))) (λ w h. h)
                            (λ u w h. h)))))

      index_documents-committed :
          (d : Document)
          → Keeps (HasCommitted r) (
              index_documents docstore store qdrant parser embed embedding_dimension lower root file
                loader info d)
      unfolding index_documents
      index_documents-committed d =
          let P = HasCommitted r in
          Leads-lift P P P (file.load loader) _ (λ w h. h)
            (λ contents loaded.
              Leads-lift P P P
                (parser.build_hierarchical_nodes (tag_all (file_metadata info d) contents)) _
                (λ w h. h) (λ parsed e. stored-committed d parsed.0 parsed.1 _))

      -- From the commit of the decision on.
      changed-committed :
          (decision : VersionDecision) (w : State docstore store qdrant)
          → (ingest_changed docstore store qdrant parser embed embedding_dimension lower root file
              loader info decision
              (record w { registry = r })).1.committed
            ≡ r
      unfolding ingest_changed
      changed-committed decision w =
          let P = HasCommitted r in
          let d = decision.document in
          let begun : State docstore store qdrant = record w { registry = r; committed = r } in
          elim (Bool-cases decision.is_new) [
            | inl new ↦ rw new (index_documents-committed d begun refl)
            | inr old ↦ rw old (
                Leads-bind P P P (purge_existing_document_data docstore store qdrant d.id)
                  (λ u.
                    index_documents docstore store qdrant parser embed embedding_dimension lower
                      root file loader info d)
                  (purge-Keeps docstore store qdrant d.id P (record {
                    docs = λ w s fewer h. h;
                    vectors = λ w s fewer h. h;
                    cache = λ w s h. h;
                  }))
                  (λ v h. h) (λ u. index_documents-committed d) begun refl)
          ]

    module _ (new_id now : ℕ) (resolved : ResolvedMetadata) where
      decided-HasRow :
          (loader : Loader) (content_hash : String) (size_bytes : ℕ)
          (w : State docstore store qdrant)
          → IsConsistent w.registry
          → IsFresh new_id w.registry
          → HasRow resolved.tenant_id file.relative_path w.committed
          → let info = file_info root (lower file.suffix) file resolved content_hash size_bytes in
            HasRow resolved.tenant_id file.relative_path
              ((session (get_or_create_document new_id now info)
                  >>= ingest_decided docstore store qdrant parser embed embedding_dimension lower
                      root file loader info)
                w).1.committed
      unfolding ingest_decided
      decided-HasRow loader content_hash size_bytes w c fresh has =
          let info = file_info root (lower file.suffix) file resolved content_hash size_bytes in
          let (out, got, c') =
            get_or_create_document-IsConsistent now info w.registry c new_id fresh in
          elim (Bool-cases out.0.changed) [
            | inl changed ↦
                let s = IsStarted-of_changed new_id now info w.registry c out got changed in
                let row : HasRow resolved.tenant_id file.relative_path out.1 = record {
                  document = out.0.document;
                  stored = s.stored;
                  key = s.key;
                } in
                rw (got, changed)
                  (subst (HasRow resolved.tenant_id file.relative_path)
                    (sym (changed-committed loader info out.1 out.0 w)) row)
            | inr same ↦ rw (got, same) has
          ]

      supported-HasRow :
          (loader : Loader) (w : State docstore store qdrant)
          → IsConsistent w.registry
          → IsFresh new_id w.registry
          → HasRow resolved.tenant_id file.relative_path w.committed
          → HasRow resolved.tenant_id file.relative_path
              (ingest_supported docstore store qdrant parser embed embedding_dimension lower root
                new_id now file resolved loader w).1.committed
      supported-HasRow loader w c fresh has = elim (Result-cases file.read) [
        | inl (e, failed) ↦ rw failed has
        | inr ((content_hash, size_bytes), read) ↦
            rw read (decided-HasRow loader content_hash size_bytes w c fresh has)
      ]

      -- The row of a file stays committed, also if the ingestion raises.
      pub ingest_file-HasRow :
          (w : State docstore store qdrant)
          → IsConsistent w.registry
          → IsFresh new_id w.registry
          → HasRow resolved.tenant_id file.relative_path w.committed
          → HasRow resolved.tenant_id file.relative_path
              (ingest_file docstore store qdrant parser embed embedding_dimension lower root new_id
                now file resolved w).1.committed
      unfolding ingest_file
      ingest_file-HasRow w c fresh has = elim (Option-cases (loader_of (lower file.suffix))) [
        | inl unsupported ↦ rw unsupported has
        | inr (loader, supported) ↦ rw supported (supported-HasRow loader w c fresh has)
      ]
