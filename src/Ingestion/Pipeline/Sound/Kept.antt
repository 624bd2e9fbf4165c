-- ===== src/Ingestion/Pipeline/Sound/Kept.antt =====
-- That an ingestion keeps the invariant of the stores.
use enterprise_doc_rag.Common.{
  ℕ, String, ◌≡◌, ap, ◌∙◌, inl, inr, List, [], length, Member, Bool-cases, Option-cases,
}
use enterprise_doc_rag.Common.Result.{Result, ok, Result-cases}
use enterprise_doc_rag.Common.Io.{pure, Leads, Leads-bind, Leads-lift, ◌>>=◌}
use enterprise_doc_rag.Retrieval.Collections.{ensure_collection}
use enterprise_doc_rag.Cache.{Qdrant}
use enterprise_doc_rag.Registry.{
  Document, Registry, FileInfo, VersionDecision, get_or_create_document,
}
use enterprise_doc_rag.Registry.Consistent.{
  IsConsistent, IsFresh, get_or_create_document-IsConsistent,
}
use enterprise_doc_rag.Registry.Lifecycle.{IsStarted-of_changed}
use enterprise_doc_rag.Registry.Ingested.{
  IsIngested, IsIngested-of_started, get_or_create_document-IsIngested,
}
use enterprise_doc_rag.Ingestion.Metadata.{ResolvedMetadata}
use enterprise_doc_rag.Ingestion.World.{session, on_docs, on_vectors}
use enterprise_doc_rag.Ingestion.Stores.{Node, Docstore, VectorStore, Adds, IsOf}
use enterprise_doc_rag.Ingestion.Pipeline.{
  Loader, SourceFile, IngestResult, NodeParser, State, file_info, file_metadata, tag_all, finalized,
  purge_existing_document_data, index_documents, ingest_changed, ingest_decided, ingest_supported,
  ingest_file, loader_of,
}
use enterprise_doc_rag.Ingestion.Pipeline.Indexed.{tagged-metadata, ensured-Adds}
use enterprise_doc_rag.Ingestion.Pipeline.Sound.{
  IsSound, IsStartedIn, docs-IsStartedIn, vectors-IsStartedIn, purge-IsStartedIn, finalized-IsSound,
}

module _ {Content Score Vector : Type 0} (docstore : Docstore Content) (store : VectorStore Content)
    (qdrant : Qdrant Score Vector) where
  module _ (parser : NodeParser Content) (embed : List (Node Content) → Result (Unit {0}))
      (embedding_dimension : ℕ) (lower : String → String) (root : String) where
    module _ (file : SourceFile Content) (loader : Loader) (info : FileInfo) where
      ensured-old :
          (s : store.client.State) (n : Node Content)
          → Member n (store.client.points (ensure_collection store.client embedding_dimension s))
          → Member n (store.client.points s)
      ensured-old s n m =
          let t = ensure_collection store.client embedding_dimension s in
          let a : Adds [] (store.client.points t) (store.client.points t) (ok tt) = record {
            new = λ n k. inl k;
            kept = λ n k. k;
            added = λ e n k. elim k [ ];
          } in
          elim ((ensured-Adds docstore store qdrant embedding_dimension s t [] (ok tt) a).new n m) [
            | inl old ↦ old
            | inr bad ↦ elim bad [ ]
          ]

      -- From the collection on, for any result.
      leaf-IsSound :
          (d : Document) (leaf : List (Node Content))
          → ((n : Node Content) → Member n leaf → IsOf d.id n)
          → (res : IngestResult)
          → Leads
              (IsStartedIn docstore store qdrant d)
              (on_vectors (λ s. (ok tt, ensure_collection store.client embedding_dimension s))
                >>= (λ u.
                    on_vectors (store.add leaf)
                    >>= (λ v. session (finalized d (length leaf)) >>= (λ x. pure res))))
              (IsSound docstore store qdrant)
      leaf-IsSound d leaf of_d res =
          let P = IsStartedIn docstore store qdrant d in
          let weaker = λ (w : State docstore store qdrant) (h : P w). h.sound in
          let finish = λ (v : Unit {0}). session (finalized d (length leaf)) >>= (λ x. pure res) in
          let add = λ (u : Unit {0}). on_vectors (store.add leaf) >>= finish in
          Leads-bind P P (IsSound docstore store qdrant)
            (on_vectors (λ s. (ok tt, ensure_collection store.client embedding_dimension s))) add
            (λ w h.
              vectors-IsStartedIn docstore store qdrant d w _
                (λ n m. inl (ensured-old w.vectors n m)) h)
            weaker
            (λ u.
              Leads-bind P P (IsSound docstore store qdrant) (on_vectors (store.add leaf)) finish
                (λ w h.
                  vectors-IsStartedIn docstore store qdrant d w _
                    (λ n m. elim ((store.add-Adds leaf w.vectors).new n m) [
                      | inl old ↦ inl old
                      | inr new ↦ inr (of_d n new)
                    ])
                    h)
                weaker
                (λ v.
                  Leads-bind P (IsSound docstore store qdrant) (IsSound docstore store qdrant)
                    (session (finalized d (length leaf))) (λ x. pure res)
                    (finalized-IsSound docstore store qdrant d (length leaf)) (λ w h. h)
                    (λ v w h. h)))

      index_documents-IsSound :
          (d : Document)
          → Leads
              (IsStartedIn docstore store qdrant d)
              (index_documents docstore store qdrant parser embed embedding_dimension lower root
                file loader info d)
              (IsSound docstore store qdrant)
      unfolding index_documents
      index_documents-IsSound d =
          let P = IsStartedIn docstore store qdrant d in
          let weaker = λ (w : State docstore store qdrant) (h : P w). h.sound in
          Leads-lift P P (IsSound docstore store qdrant) (file.load loader) _ weaker
            (λ contents loaded.
              let documents = tag_all (file_metadata info d) contents in
              Leads-lift P P (IsSound docstore store qdrant)
                (parser.build_hierarchical_nodes documents) _ weaker
                (λ parsed e.
                  let (all, leaf) = parsed in
                  let of_d : (n : Node Content) → Member n all → n.metadata.document_id ≡ d.id =
                    λ n m.
                      let (x, k, same) = parser.all-metadata documents all leaf e n m in
                      ap (λ y. y.document_id)
                        (same ∙ tagged-metadata (file_metadata info d) contents x k) in
                  Leads-bind {B = IngestResult} P P (IsSound docstore store qdrant)
                    (on_docs (docstore.add_documents all)) _
                    (λ w h.
                      docs-IsStartedIn docstore store qdrant d w _
                        (λ n m. elim ((docstore.add_documents-Adds all w.docs).new n m) [
                          | inl old ↦ inl old
                          | inr new ↦ inr (of_d n new)
                        ])
                        h)
                    weaker
                    (λ u.
                      Leads-lift P P (IsSound docstore store qdrant) (embed leaf) _ weaker
                        (λ v embedded.
                          leaf-IsSound d leaf
                            (λ n m. of_d n (parser.leaf-all documents all leaf e n m)) _))))

      -- What holds when the decision to start has been made and not committed.
      ingest_changed-IsSound :
          (decision : VersionDecision)
          → Leads
              (λ w.
                (IsSound docstore store qdrant) w
                × Member decision.document w.registry.documents
                × IsIngested w.registry decision.document.id)
              (ingest_changed docstore store qdrant parser embed embedding_dimension lower root file
                loader info decision)
              (IsSound docstore store qdrant)
      unfolding ingest_changed
      ingest_changed-IsSound decision w (sound, stored, known) =
          let d = decision.document in
          let P = IsStartedIn docstore store qdrant d in
          let index = λ (u : Unit {0}).
            index_documents docstore store qdrant parser embed embedding_dimension lower root file
              loader info d in
          let h : P (record w { committed = w.registry }) = record {
            sound = record {
              consistent = sound.consistent;
              consistent_committed = sound.consistent;
              accounted = record { docs = sound.accounted.docs; vectors = sound.accounted.vectors };
              accounted_committed = record {
                docs = sound.accounted.docs;
                vectors = sound.accounted.vectors;
              };
            };
            stored = stored;
            known = known;
            known_committed = known;
          } in
          elim (Bool-cases decision.is_new) [
            | inl new ↦ rw new (index_documents-IsSound d _ h)
            | inr old ↦ rw old (
                Leads-bind P P (IsSound docstore store qdrant)
                  (purge_existing_document_data docstore store qdrant d.id) index
                  (purge-IsStartedIn docstore store qdrant d) (λ v k. k.sound)
                  (λ u. index_documents-IsSound d) _ h)
          ]

      -- The session sees a decision that the registry has made.
      decided-IsSound :
          (new_id now : ℕ) (w : State docstore store qdrant) (out : VersionDecision × Registry)
          → (IsSound docstore store qdrant) w
          → IsConsistent out.1
          → get_or_create_document new_id now info w.registry ≡ ok out
          → (IsSound docstore store qdrant) (record w { registry = out.1 })
      decided-IsSound new_id now w out h c got =
          let kept =
            get_or_create_document-IsIngested w.registry h.consistent new_id now info out got in
          record {
            consistent = c;
            consistent_committed = h.consistent_committed;
            accounted = record {
              docs = λ n m. kept _ (h.accounted.docs n m);
              vectors = λ n m. kept _ (h.accounted.vectors n m);
            };
            accounted_committed = record {
              docs = h.accounted_committed.docs;
              vectors = h.accounted_committed.vectors;
            };
          }

      ingest_decided-IsSound :
          (new_id now : ℕ) (w : State docstore store qdrant)
          → (IsSound docstore store qdrant) w
          → IsFresh new_id w.registry
          → (IsSound docstore store qdrant)
              ((session (get_or_create_document new_id now info)
                  >>= ingest_decided docstore store qdrant parser embed embedding_dimension lower
                      root file loader info)
                w).1
      unfolding ingest_decided
      ingest_decided-IsSound new_id now w h fresh =
          let (out, e, c) =
            get_or_create_document-IsConsistent now info w.registry h.consistent new_id fresh in
          let sound = decided-IsSound new_id now w out h c e in
          elim (Bool-cases out.0.changed) [
            | inl changed ↦
                let s =
                  IsStarted-of_changed new_id now info w.registry h.consistent out e changed in
                rw (e, changed)
                  (ingest_changed-IsSound out.0 (record w { registry = out.1 })
                    (sound, s.stored, IsIngested-of_started info out.0.document out.1 s))
            | inr same ↦ rw (e, same) sound
          ]

    module _ (new_id now : ℕ) (file : SourceFile Content) (resolved : ResolvedMetadata) where
      supported-IsSound :
          (loader : Loader) (w : State docstore store qdrant)
          → (IsSound docstore store qdrant) w
          → IsFresh new_id w.registry
          → (IsSound docstore store qdrant)
              (ingest_supported docstore store qdrant parser embed embedding_dimension lower root
                new_id now file resolved loader w).1
      supported-IsSound loader w h fresh = elim (Result-cases file.read) [
        | inl (e, failed) ↦ rw failed h
        | inr ((content_hash, size_bytes), read) ↦
            let info = file_info root (lower file.suffix) file resolved content_hash size_bytes in
            rw read (ingest_decided-IsSound file loader info new_id now w h fresh)
      ]

      -- With a fresh id, an ingestion keeps the invariant, whatever it returns.
      pub ingest_file-IsSound :
          (w : State docstore store qdrant)
          → (IsSound docstore store qdrant) w
          → IsFresh new_id w.registry
          → (IsSound docstore store qdrant)
              (ingest_file docstore store qdrant parser embed embedding_dimension lower root new_id
                now file resolved w).1
      unfolding ingest_file
      ingest_file-IsSound w h fresh = elim (Option-cases (loader_of (lower file.suffix))) [
        | inl unsupported ↦ rw unsupported h
        | inr (loader, supported) ↦ rw supported (supported-IsSound loader w h fresh)
      ]
