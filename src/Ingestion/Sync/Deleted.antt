-- ===== src/Ingestion/Sync/Deleted.antt =====
-- What the deletion of vanished files leaves.
use mathlib.Core.Path.{subst}
use enterprise_doc_rag.Common.{
  ℕ, String, ◌≡◌, ◌≢◌, refl, sym, ap, ◌∙◌, ◌⊎◌, inl, inr, true, false, List, [], ◌∷◌, arith,
  string_eq, nat_eq, contains, Member, Bool-cases, Member-update_where,
  Member-of_update_where_other,
}
use enterprise_doc_rag.Common.Result.{ok}
use enterprise_doc_rag.Common.Io.{Keeps, Leads-bind, ran, returned, ◌>>=◌}
use enterprise_doc_rag.Cache.{Qdrant}
use enterprise_doc_rag.Registry.{Document, Registry, has_id, deleted, with_status, update_document}
use enterprise_doc_rag.Ingestion.World.{session}
use enterprise_doc_rag.Ingestion.Stores.{Node, Docstore, VectorStore}
use enterprise_doc_rag.Ingestion.Pipeline.{State, purge_existing_document_data}
use enterprise_doc_rag.Ingestion.Pipeline.Purged.{
  purge-Keeps, IsPurged, purge-IsPurged, IsUncited, invalidated-IsUncited,
}
use enterprise_doc_rag.Ingestion.Sync.{
  SyncSummary, is_live_under, set_deleted, delete_row, delete_missing, noted_deleted,
}

module _ {Content Score Vector : Type 0} (docstore : Docstore Content) (store : VectorStore Content)
    (qdrant : Qdrant Score Vector) where
  -- Neither store has a node of document `i`.
  pub record IsGone (i : ℕ) (w : State docstore store qdrant) : Type 0 where
    pub docs : (n : Node Content) → Member n (docstore.nodes w.docs) → n.metadata.document_id ≢ i
    pub vectors :
        (n : Node Content) → Member n (store.client.points w.vectors) → n.metadata.document_id ≢ i

  purged-IsGone :
      (i : ℕ) (w w' : State docstore store qdrant)
      → IsPurged docstore store qdrant i w w'
      → IsGone i w' × ((j : ℕ) → IsGone j w → IsGone j w')
  purged-IsGone i w w' p = (
    record { docs = p.docs.gone refl; vectors = p.vectors.gone refl },
    λ j g. record {
      docs = λ n m. g.docs n (p.docs.old n m);
      vectors = λ n m. g.vectors n (p.vectors.old n m);
    },
  )

  -- The row of `d` is deleted, in the session, with all that the document left elsewhere.
  pub record IsRowDeleted (d : Document) (w w' : State docstore store qdrant) : Type 0 where
    pub gone : IsGone d.id w'
    pub kept_gone : (j : ℕ) → IsGone j w → IsGone j w'
    pub other_docs :
        (n : Node Content)
        → n.metadata.document_id ≢ d.id
        → Member n (docstore.nodes w.docs)
        → Member n (docstore.nodes w'.docs)
    pub other_vectors :
        (n : Node Content)
        → n.metadata.document_id ≢ d.id
        → Member n (store.client.points w.vectors)
        → Member n (store.client.points w'.vectors)
    pub uncited : IsUncited qdrant d.id w'.cache
    pub registry : w'.registry ≡ update_document d.id (with_status deleted) w.registry
    pub committed : w'.committed ≡ w.committed

  pub delete_row-IsRowDeleted :
      (d : Document) (w w' : State docstore store qdrant)
      → delete_row docstore store qdrant d w ≡ (ok tt, w')
      → IsRowDeleted d w w'
  unfolding delete_row
  delete_row-IsRowDeleted d w w' h =
      let (u, v, purged, h1) =
        ran (purge_existing_document_data docstore store qdrant d.id) (λ u. session (set_deleted d))
          w w' tt h in
      let p = purge-IsPurged docstore store qdrant d.id w v purged in
      let after : State docstore store qdrant = record v {
        registry = update_document d.id (with_status deleted) v.registry;
      } in
      let same = (returned tt tt after w' h1).1 in
      let (gone, kept) = purged-IsGone d.id w v p in
      subst (IsRowDeleted d w) same (record {
        gone = record { docs = gone.docs; vectors = gone.vectors };
        kept_gone = λ j g. record { docs = (kept j g).docs; vectors = (kept j g).vectors };
        other_docs = p.docs.kept;
        other_vectors = p.vectors.kept;
        uncited =
            subst (IsUncited qdrant d.id) (sym p.cache) (invalidated-IsUncited qdrant d.id w.cache);
        registry = ap (update_document d.id (with_status deleted)) p.registry;
        committed = p.committed;
      })

  -- Nothing is committed, also if the purge raises.
  pub delete_row-committed :
      (r : Registry) (d : Document)
      → Keeps (λ w. w.committed ≡ r) (delete_row docstore store qdrant d)
  unfolding delete_row
  delete_row-committed r d =
      let P = λ (w : State docstore store qdrant). w.committed ≡ r in
      Leads-bind P P P (purge_existing_document_data docstore store qdrant d.id)
        (λ u. session (set_deleted d))
        (purge-Keeps docstore store qdrant d.id P
          (record { docs = λ w s fewer h. h; vectors = λ w s fewer h. h; cache = λ w s h. h }))
        (λ w h. h) (λ u w h. h)

  module _ (root : String) (discovered : List String) where
    -- Each live row under the root is of a file that was found, or is still to be looked at.
    abbrev pub IsListed : List Document → Registry → Type 0
    IsListed ds r =
        (d : Document)
        → Member d r.documents
        → is_live_under root d ≡ true
        → (contains discovered d.source_path ≡ true)
          ⊎ ((x : Document) × Member x ds × (x.id ≡ d.id) × (x.source_path ≡ d.source_path))

    pub record IsCleaned (ds : List Document) (w w' : State docstore store qdrant) : Type 0 where
      pub kept_gone : (j : ℕ) → IsGone j w → IsGone j w'
      pub gone :
          (d : Document) → Member d ds → contains discovered d.source_path ≡ false → IsGone d.id w'
      pub listed : IsListed ds w.registry → IsListed [] w'.registry
      pub spared :
          (d : Document)
          → Member d w.registry.documents
          → ((x : Document) → Member x ds → x.id ≡ d.id → contains discovered x.source_path ≡ true)
          → Member d w'.registry.documents
      pub committed : w'.committed ≡ w.committed

    IsListed-found :
        (d : Document) (ds : List Document) (r : Registry)
        → contains discovered d.source_path ≡ true
        → IsListed (d ∷ ds) r
        → IsListed ds r
    IsListed-found d ds r here h x m live = elim (h x m live) [
      | inl found ↦ inl found
      | inr (y, inl e, same, path) ↦
          let p : d.source_path ≡ x.source_path = sym (ap (λ z. z.source_path) e) ∙ path in
          inl (rw p at here)
      | inr (y, inr k, same, path) ↦ inr (y, k, same, path)
    ]

    IsListed-deleted :
        (d : Document) (ds : List Document) (r : Registry)
        → IsListed (d ∷ ds) r
        → IsListed ds (update_document d.id (with_status deleted) r)
    IsListed-deleted d ds r h x m live =
        let (y, my, e) = Member-update_where (has_id d.id) (with_status deleted) x r.documents m in
        elim (Bool-cases (has_id d.id y)) [
          | inl here ↦
              let e' : x ≡ with_status deleted y = rw here at e in
              let live' : is_live_under root (with_status deleted y) ≡ true = rw e' at live in
              absurd (cc live')
          | inr other ↦
              let e' : x ≡ y = rw other at e in
              elim (h y my (rw e' at live)) [
                | inl found ↦ inl (rw e' found)
                | inr (z, inl f, same, path) ↦
                    absurd (ground (arith, other, same, ap (λ v. v.id) f))
                | inr (z, inr k, same, path) ↦
                    inr (
                      z,
                      k,
                      same ∙ sym (ap (λ v. v.id) e'),
                      path ∙ sym (ap (λ v. v.source_path) e'),
                    )
              ]
        ]

    has_id-missing :
        (d x : Document)
        → contains discovered d.source_path ≡ false
        → (d.id ≡ x.id → contains discovered d.source_path ≡ true)
        → has_id d.id x ≡ false
    has_id-missing d x missing k = elim (Bool-cases (has_id d.id x)) [
      | inl same ↦ absurd (cc (missing, k (ground (arith, same))))
      | inr differs ↦ differs
    ]

    pub delete_missing-IsCleaned :
        (ds : List Document) (s s' : SyncSummary) (w w' : State docstore store qdrant)
        → delete_missing docstore store qdrant discovered ds s w ≡ (ok s', w')
        → IsCleaned ds w w'
    unfolding delete_missing
    delete_missing-IsCleaned [] s s' w w' h =
        subst (IsCleaned [] w) (returned s s' w w' h).1 (record {
          kept_gone = λ j g. g;
          gone = λ d m. absurd m;
          listed = λ l. l;
          spared = λ d m k. m;
          committed = refl;
        })
    delete_missing-IsCleaned (d ∷ ds) s s' w w' h =
        elim (Bool-cases (contains discovered d.source_path)) [
          | inl here ↦
              let c = delete_missing-IsCleaned ds s s' w w' (rw here at h) in
              record {
                kept_gone = c.kept_gone;
                gone = λ x m missing. elim m [
                  | inl e ↦ absurd (cc (here, missing, ap (λ v. v.source_path) e))
                  | inr k ↦ c.gone x k missing
                ];
                listed = λ l. c.listed (IsListed-found d ds w.registry here l);
                spared = λ x m k. c.spared x m (λ y n. k y (inr n));
                committed = c.committed;
              }
          | inr missing ↦
              let rest = λ (u : Unit {0}).
                delete_missing docstore store qdrant discovered ds
                  (noted_deleted d.source_path s) in
              let h' : (delete_row docstore store qdrant d >>= rest) w ≡ (ok s', w') =
                rw missing at h in
              let (u, v, deleted_d, h1) =
                ran (delete_row docstore store qdrant d) rest w w' s' h' in
              let x_d = delete_row-IsRowDeleted d w v deleted_d in
              let c = delete_missing-IsCleaned ds (noted_deleted d.source_path s) s' v w' h1 in
              record {
                kept_gone = λ j g. c.kept_gone j (x_d.kept_gone j g);
                gone = λ x m k. elim m [
                  | inl e ↦ c.kept_gone x.id (subst (λ y. IsGone y.id v) (sym e) x_d.gone)
                  | inr n ↦ c.gone x n k
                ];
                listed = λ l.
                    c.listed
                      (subst (IsListed ds) (sym x_d.registry) (IsListed-deleted d ds w.registry l));
                spared = λ x m k.
                    c.spared x
                      (subst (λ r. Member x r.documents) (sym x_d.registry)
                        (Member-of_update_where_other (has_id d.id) (with_status deleted) x
                          w.registry.documents m (has_id-missing d x missing (k d (inl refl)))))
                      (λ y n. k y (inr n));
                committed = c.committed ∙ x_d.committed;
              }
        ]
