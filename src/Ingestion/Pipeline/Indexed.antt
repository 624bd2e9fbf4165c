-- ===== src/Ingestion/Pipeline/Indexed.antt =====
-- What an ingestion leaves in the docstore and in the chunk collection.
use mathlib.Core.Path.{subst, subst₂}
use enterprise_doc_rag.Common.{
  ℕ, String, ◌≡◌, refl, ap, ◌∙◌, inl, inr, some, List, [], ◌∷◌, length, Member, Bool-cases,
}
use enterprise_doc_rag.Common.Result.{Result, ok}
use enterprise_doc_rag.Common.Io.{returned}
use enterprise_doc_rag.Retrieval.Collections.{ensure_collection, ensure_collection-points}
use enterprise_doc_rag.Cache.{Qdrant}
use enterprise_doc_rag.Registry.{Document, FileInfo, finalize_document}
use enterprise_doc_rag.Ingestion.World.{
  updated, docs_first, vectors_first, lift_first, session_first,
}
use enterprise_doc_rag.Ingestion.Stores.{FileMetadata, Node, Docstore, VectorStore, Adds}
use enterprise_doc_rag.Ingestion.Pipeline.{
  Loader, SourceFile, IngestResult, ingested, NodeParser, State, file_metadata, tag_all, finalized,
  index_documents,
}

pub tagged-metadata :
    {Content : Type 0} (m : FileMetadata) (contents : List Content) (d : Node Content)
    → Member d (tag_all m contents)
    → d.metadata ≡ m
tagged-metadata m [] d h = elim h [ ]
tagged-metadata m (c ∷ contents) d (inl e) = ap (λ x. x.metadata) e
tagged-metadata m (c ∷ contents) d (inr h) = tagged-metadata m contents d h

module _ {Content Score Vector : Type 0} (docstore : Docstore Content) (store : VectorStore Content)
    (qdrant : Qdrant Score Vector) where
  -- The nodes that the parser makes of what the loader reads are added to what was there.
  pub record IsIndexed (parser : NodeParser Content) (file : SourceFile Content) (loader : Loader)
      (m : FileMetadata) (w w' : State docstore store qdrant) (res : IngestResult) : Type 0 where
    pub contents : List Content
    pub all : List (Node Content)
    pub leaf : List (Node Content)
    pub loaded : file.load loader ≡ ok contents
    pub parsed : parser.build_hierarchical_nodes (tag_all m contents) ≡ ok (all, leaf)
    pub all_tagged : (n : Node Content) → Member n all → n.metadata ≡ m
    pub leaf_tagged : (n : Node Content) → Member n leaf → n.metadata ≡ m
    pub docs : Adds all (docstore.nodes w.docs) (docstore.nodes w'.docs) (ok tt)
    pub vectors : Adds leaf (store.client.points w.vectors) (store.client.points w'.vectors) (ok tt)
    pub committed : w'.committed ≡ w.committed
    pub cache : w'.cache ≡ w.cache
    pub num_chunks : res.num_leaf_chunks ≡ length leaf

  pub ensured-Adds :
      (n : ℕ) (s t : store.client.State) (ns : List (Node Content)) (r : Result (Unit {0}))
      → Adds ns (store.client.points (ensure_collection store.client n s)) (store.client.points t) r
      → Adds ns (store.client.points s) (store.client.points t) r
  ensured-Adds n s t ns r a =
      let (there, e) = ensure_collection-points store.client n s in
      elim (Bool-cases (store.client.collection_exists s)) [
        | inl h ↦
            let same : store.client.points (ensure_collection store.client n s)
                ≡ store.client.points s =
              rw h at e in
            rw same at a
        | inr h ↦
            let empty : store.client.points (ensure_collection store.client n s) ≡ [] = rw h at e in
            let a' : Adds ns [] (store.client.points t) r = rw empty at a in
            record {
              new = λ x m. elim (a'.new x m) [ inl bad ↦ elim bad [ ] | inr k ↦ inr k ];
              kept = λ x m. absurd (cc (h, store.missing-points s x m));
              added = a'.added;
            }
      ]

  abbrev pub ingested_result : {Content : Type 0} → SourceFile Content → Document → ℕ → IngestResult
  ingested_result file d n = record {
    source_path = file.relative_path;
    status = ingested;
    num_leaf_chunks = n;
    document_id = some d.id;
  }

  module _ (parser : NodeParser Content) (embed : List (Node Content) → Result (Unit {0}))
      (embedding_dimension : ℕ) (lower : String → String) (root : String)
      (file : SourceFile Content) (loader : Loader) (info : FileInfo) (d : Document) where
    -- What `ingest_file` does from the loading on, if it returns.
    pub index_documents-IsIndexed :
        (w w' : State docstore store qdrant) (res : IngestResult)
        → index_documents docstore store qdrant parser embed embedding_dimension lower root file
            loader info d w
          ≡ (ok res, w')
        → IsIndexed parser file loader (file_metadata info d) w w' res
          × (res.status ≡ ingested)
          × (finalize_document d res.num_leaf_chunks w.registry ≡ ok w'.registry)
    unfolding index_documents
    index_documents-IsIndexed w w' res h =
        let (contents, load_ok, h1) = lift_first w w' res (file.load loader) _ h in
        let documents = tag_all (file_metadata info d) contents in
        let ((all, leaf), parsed, h2) =
          lift_first w w' res (parser.build_hierarchical_nodes documents) _ h1 in
        let (stored, h3) = docs_first w w' res (docstore.add_documents all) _ h2 in
        let w1 = record w { docs = (docstore.add_documents all w.docs).1 } in
        let (u, embedded, h4) = lift_first w1 w' res (embed leaf) _ h3 in
        let ensured = ensure_collection store.client embedding_dimension w.vectors in
        let w2 : State docstore store qdrant = record w1 { vectors = ensured } in
        let (added, h5) = vectors_first w2 w' res (store.add leaf) _ h4 in
        let w3 : State docstore store qdrant = record w2 { vectors = (store.add leaf ensured).1 } in
        let (v, r, final, h6) =
          session_first w3 w' res _ (finalized d (length leaf) w.registry) h5 in
        let e : IsIndexed parser file loader (file_metadata info d) w (record w3 { registry = r })
            (ingested_result file d (length leaf)) =
          record {
            contents = contents;
            all = all;
            leaf = leaf;
            loaded = load_ok;
            parsed = parsed;
            all_tagged = λ n m.
                let (x, k, same) = parser.all-metadata documents all leaf parsed n m in
                same ∙ tagged-metadata (file_metadata info d) contents x k;
            leaf_tagged = λ n m.
                let (x, k, same) =
                  parser.all-metadata documents all leaf parsed n
                    (parser.leaf-all documents all leaf parsed n m) in
                same ∙ tagged-metadata (file_metadata info d) contents x k;
            docs =
                subst (Adds all (docstore.nodes w.docs) (docstore.nodes w1.docs)) stored
                  (docstore.add_documents-Adds all w.docs);
            vectors = ensured-Adds embedding_dimension w.vectors _ leaf (ok tt) (
                subst (Adds leaf (store.client.points ensured) (store.client.points w3.vectors))
                  added (store.add-Adds leaf ensured));
            committed = refl;
            cache = refl;
            num_chunks = refl;
          } in
        let (same_res, same_world) = returned (ingested_result file d (length leaf)) res _ w' h6 in
        subst₂
          (λ x v.
            IsIndexed parser file loader (file_metadata info d) w v x
            × (x.status ≡ ingested)
            × (finalize_document d x.num_leaf_chunks w.registry ≡ ok v.registry))
          same_res same_world
          (e, refl, updated (finalize_document d (length leaf) w.registry) r final)
