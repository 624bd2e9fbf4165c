-- ===== src/Ingestion/Pipeline/Purged.antt =====
-- What `_purge_existing_document_data` leaves of a document.
use mathlib.Core.Path.{subst}
use enterprise_doc_rag.Common.{
  ℕ, ◌≡◌, refl, inl, inr, true, false, [], ◌∷◌, Member, Bool-cases, contains, string_eq, nat_eq,
  Member-select, select, not, all, arith,
}
use enterprise_doc_rag.Common.Text.{decimal}
use enterprise_doc_rag.Common.Result.{ok}
use enterprise_doc_rag.Common.Io.{returned, Keeps, Leads-bind, ◌>>=◌}
use enterprise_doc_rag.Cache.{
  Qdrant, CachePoint, invalidate_for_document, source_document_ids_any, holds,
}
use enterprise_doc_rag.Ingestion.World.{on_docs, on_vectors, on_cache, docs_first, vectors_first}
use enterprise_doc_rag.Ingestion.Stores.{Node, Docstore, VectorStore, Deletes, Deletes-absent}
use enterprise_doc_rag.Ingestion.Pipeline.{State, delete_vectors, purge_existing_document_data}

module _ {Score Vector : Type 0} (qdrant : Qdrant Score Vector) where
  -- No cached answer cites the document.
  abbrev pub IsUncited : ℕ → qdrant.State → Type 0
  IsUncited i s =
      (p : CachePoint Score Vector)
      → qdrant.collection_exists s ≡ true
      → Member p (qdrant.points s)
      → contains p.source_document_ids (decimal i) ≡ false

  pub invalidated-IsUncited :
      (i : ℕ) (s : qdrant.State) → IsUncited i (invalidate_for_document qdrant (decimal i) s)
  unfolding invalidate_for_document
  invalidated-IsUncited i s p there m =
      let fs = source_document_ids_any (decimal i ∷ []) ∷ [] in
      let spared = λ (p : CachePoint Score Vector). not (all (λ f. holds f p) fs) in
      elim (Bool-cases (qdrant.collection_exists s)) [
        | inl there ↦
            let m' : Member p (select spared (qdrant.points s)) =
              subst (Member p) (qdrant.points-delete fs s) (rw there at m) in
            let (k, other) = Member-select spared p (qdrant.points s) m' in ground arith
        | inr missing ↦ absurd (cc (missing, rw missing at there))
      ]

module _ {Content Score Vector : Type 0} (docstore : Docstore Content) (store : VectorStore Content)
    (qdrant : Qdrant Score Vector) (i : ℕ) where
  -- Neither store has a node of the document, and every other node is where it was.
  pub record IsPurged (w w' : State docstore store qdrant) : Type 0 where
    pub docs : Deletes i (docstore.nodes w.docs) (docstore.nodes w'.docs) (ok tt)
    pub vectors : Deletes i (store.client.points w.vectors) (store.client.points w'.vectors) (ok tt)
    pub cache : w'.cache ≡ invalidate_for_document qdrant (decimal i) w.cache
    pub registry : w'.registry ≡ w.registry
    pub committed : w'.committed ≡ w.committed

  -- If the purge returns, it is complete.
  pub purge-IsPurged :
      (w w' : State docstore store qdrant)
      → purge_existing_document_data docstore store qdrant i w ≡ (ok tt, w')
      → IsPurged w w'
  unfolding purge_existing_document_data delete_vectors
  purge-IsPurged w w' h =
      let (deleted, h1) = docs_first w w' tt (docstore.delete_ref_doc i) _ h in
      let w1 : State docstore store qdrant = record w {
        docs = (docstore.delete_ref_doc i w.docs).1;
      } in
      let docs : Deletes i (docstore.nodes w.docs) (docstore.nodes w1.docs) (ok tt) =
        subst (Deletes i (docstore.nodes w.docs) (docstore.nodes w1.docs)) deleted
          (docstore.delete_ref_doc-Deletes i w.docs) in
      elim (Bool-cases (store.client.collection_exists w.vectors)) [
        | inl there ↦
            let h2 : (on_vectors (store.delete_points i)
                    >>= (λ u. on_cache (invalidate_for_document qdrant (decimal i))))
                  w1
                ≡ (ok tt, w') =
              rw there at h1 in
            let (gone, h3) = vectors_first w1 w' tt (store.delete_points i) _ h2 in
            let vectors : Deletes i (store.client.points w.vectors)
                (store.client.points (store.delete_points i w.vectors).1) (ok tt) =
              subst
                (Deletes i (store.client.points w.vectors)
                  (store.client.points (store.delete_points i w.vectors).1))
                gone (store.delete_points-Deletes i w.vectors) in
            subst (IsPurged w) (returned tt tt _ w' h3).1 (record {
              docs = docs;
              vectors = vectors;
              cache = refl;
              registry = refl;
              committed = refl;
            })
        | inr missing ↦
            let h2 : on_cache (invalidate_for_document qdrant (decimal i)) w1 ≡ (ok tt, w') =
              rw missing at h1 in
            subst (IsPurged w) (returned tt tt _ w' h2).1 (record {
              docs = docs;
              vectors =
                  Deletes-absent i (store.client.points w.vectors) (ok tt)
                    (λ n m. absurd (cc (missing, store.missing-points w.vectors n m)));
              cache = refl;
              registry = refl;
              committed = refl;
            })
      ]

  -- A predicate of the stores that survives when nodes go and the cache changes.
  pub record IsShrinkable (P : State docstore store qdrant → Type 0) : Type 0 where
    pub docs :
        (w : State docstore store qdrant) (s : docstore.State)
        → ((n : Node Content) → Member n (docstore.nodes s) → Member n (docstore.nodes w.docs))
        → P w
        → P (record w { docs = s })
    pub vectors :
        (w : State docstore store qdrant) (s : store.client.State)
        → ((n : Node Content)
            → Member n (store.client.points s)
            → Member n (store.client.points w.vectors))
        → P w
        → P (record w { vectors = s })
    pub cache :
        (w : State docstore store qdrant) (s : qdrant.State) → P w → P (record w { cache = s })

  module _ (P : State docstore store qdrant → Type 0) (shrinks : IsShrinkable P) where
    delete_vectors-Keeps : Keeps P (delete_vectors docstore store qdrant i)
    unfolding delete_vectors
    delete_vectors-Keeps w h = elim (Bool-cases (store.client.collection_exists w.vectors)) [
      | inl there ↦
          rw there
            (shrinks.vectors w _ (λ n m. (store.delete_points-Deletes i w.vectors).old n m) h)
      | inr missing ↦ rw missing h
    ]

    -- Whether the purge returns or not, some nodes of the document are deleted, or all.
    pub purge-Keeps : Keeps P (purge_existing_document_data docstore store qdrant i)
    unfolding purge_existing_document_data
    purge-Keeps =
        Leads-bind P P P (on_docs (docstore.delete_ref_doc i)) _
          (λ w h. shrinks.docs w _ (λ n m. (docstore.delete_ref_doc-Deletes i w.docs).old n m) h)
          (λ w h. h)
          (λ u.
            Leads-bind P P P (delete_vectors docstore store qdrant i)
              (λ v. on_cache (invalidate_for_document qdrant (decimal i))) delete_vectors-Keeps
              (λ w h. h) (λ v w h. shrinks.cache w _ h))
