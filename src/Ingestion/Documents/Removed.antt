-- ===== src/Ingestion/Documents/Removed.antt =====
-- What the deletion of a document does, whatever it returns.
use enterprise_doc_rag.Common.{
  Bool-cases, false, ◌≤◌, ℕ, String, ◌≡◌, ◌≢◌, refl, ap, inl, inr, true, Member, scalar-Member,
  count_by, count_by-pos_of_Member, count_by-le, arith, string_eq, nat_eq,
}
use enterprise_doc_rag.Common.Result.{Result, Error, ok, err, http, Result-cases}
use enterprise_doc_rag.Security.Keys.{ApiKey}
use enterprise_doc_rag.Cache.{Qdrant}
use enterprise_doc_rag.Registry.{
  is_deleted, Document, Registry, has_id, deleted, with_status, update_document,
}
use enterprise_doc_rag.Registry.Consistent.{IsConsistent}
use enterprise_doc_rag.Ingestion.Stores.{Node, Docstore, VectorStore}
use enterprise_doc_rag.Ingestion.Bm25Index.{
  Bm25, rebuild_bm25_index, IsRebuilt, rebuild_bm25_index-IsRebuilt,
}
use enterprise_doc_rag.Ingestion.Pipeline.{State}
use enterprise_doc_rag.Ingestion.Pipeline.Purged.{IsUncited}
use enterprise_doc_rag.Ingestion.Worker.{Site, after_rebuild}
use enterprise_doc_rag.Ingestion.Sync.{delete_row}
use enterprise_doc_rag.Ingestion.Sync.Deleted.{
  IsGone, IsRowDeleted, delete_row-IsRowDeleted, delete_row-committed,
}
use enterprise_doc_rag.Ingestion.Documents.{is_removable, remove_document, delete_document}

module _ {Content Score Vector : Type 0} (docstore : Docstore Content) (store : VectorStore Content)
    (qdrant : Qdrant Score Vector) (upload_root : String) (bm25 : Bm25 store) {Files : Type 0}
    (unlink : String → Files → Result (Unit {0}) × Files) where
  -- The document `d` has been removed from the tables and the stores.
  pub record IsRemoved (d : Document) (w w' : State docstore store qdrant) : Type 0 where
    pub row : w'.committed ≡ update_document d.id (with_status deleted) w.committed
    pub gone : IsGone docstore store qdrant d.id w'
    pub uncited : IsUncited qdrant d.id w'.cache
    pub other_docs :
        (n : Node Content)
        → n.metadata.document_id ≢ d.id
        → Member n (docstore.nodes w.docs)
        → Member n (docstore.nodes w'.docs)
    pub other_vectors :
        (n : Node Content)
        → n.metadata.document_id ≢ d.id
        → Member n (store.client.points w.vectors)
        → Member n (store.client.points w'.vectors)

  pub data Removal (document_id : ℕ) (api_key : ApiKey) (site : Site docstore store qdrant)
      (files : Files) (out : Result ℕ × Site docstore store qdrant × Files) : Type 0 where
    not_found :
        ((d : Document)
          → Member d site.world.committed.documents
          → d.id ≡ document_id
          → d.tenant_id ≡ api_key.tenant_id
          → is_deleted d.status ≡ true)
        → out ≡ (
          err (http 404),
          record site { world = record site.world { registry = site.world.committed } },
          files,
        )
        → Removal document_id api_key site files out
    raised :
        (e : Error)
        → out.0 ≡ err e
        → out.1.world.committed ≡ site.world.committed
        → out.1.index ≡ site.index
        → out.2 ≡ files
        → Removal document_id api_key site files out
    removed :
        (d : Document)
        → Member d site.world.committed.documents
        → d.id ≡ document_id
        → d.tenant_id ≡ api_key.tenant_id
        → is_deleted d.status ≡ false
        → out.0 ≡ ok document_id
        → IsRemoved d site.world out.1.world
        → IsRebuilt store bm25 out.1.world.vectors site.index out.1.index
        → (d.ingestion_root ≢ upload_root → out.2 ≡ files)
        → Removal document_id api_key site files out
    unindexed :
        (d : Document)
        → Member d site.world.committed.documents
        → d.id ≡ document_id
        → d.tenant_id ≡ api_key.tenant_id
        → is_deleted d.status ≡ false
        → (e : Error) → out.0 ≡ err e
        → (rebuild_bm25_index store bm25 out.1.world.vectors site.index).0 ≡ err e
        → IsRemoved d site.world out.1.world
        → (d.ingestion_root ≢ upload_root → out.2 ≡ files)
        → Removal document_id api_key site files out

  IsRemoved-of_row :
      (d : Document) (site : Site docstore store qdrant) (v : State docstore store qdrant)
      → IsRowDeleted docstore store qdrant d
          (record site.world { registry = site.world.committed })
          v
      → IsRemoved d site.world (record v { committed = v.registry })
  IsRemoved-of_row d site v x = record {
    row = x.registry;
    gone = record { docs = x.gone.docs; vectors = x.gone.vectors };
    uncited = x.uncited;
    other_docs = x.other_docs;
    other_vectors = x.other_vectors;
  }

  Removal-of_removed :
      (document_id : ℕ) (api_key : ApiKey) (d : Document) (site : Site docstore store qdrant)
      (files files' : Files) (v : State docstore store qdrant)
      → Member d site.world.committed.documents
      → d.id ≡ document_id
      → d.tenant_id ≡ api_key.tenant_id
      → is_deleted d.status ≡ false
      → IsRemoved d site.world v
      → (d.ingestion_root ≢ upload_root → files' ≡ files)
      → let rebuilt =
          after_rebuild docstore store qdrant d.id v
            (rebuild_bm25_index store bm25 v.vectors site.index) in
        Removal document_id api_key site files (rebuilt.0, rebuilt.1, files')
  Removal-of_removed document_id api_key d site files files' v m i t live x untouched =
      let step = rebuild_bm25_index store bm25 v.vectors site.index in
      elim (Result-cases step.0) [
        | inl (e, failed) ↦ rw failed (unindexed d m i t live e refl failed x untouched)
        | inr (n, done) ↦ rw done (
            removed d m i t live (ap ok i) x
              (rebuild_bm25_index-IsRebuilt store bm25 v.vectors site.index step.1 n
                (ap (λ y. (y, step.1)) done))
              untouched)
      ]

  removable_once :
      (document_id : ℕ) (tenant : String) (r : Registry)
      → IsConsistent r
      → count_by (is_removable document_id tenant) r.documents ≤ 1
  removable_once document_id tenant r c = omega (
    arith,
    count_by-le (is_removable document_id tenant) (has_id document_id) r.documents
        (λ d h. ground (arith, h)),
    c.unique_id document_id,
  )

  none_removable :
      (document_id : ℕ) (tenant : String) (r : Registry)
      → count_by (is_removable document_id tenant) r.documents ≡ 0
      → (d : Document) → Member d r.documents
      → d.id ≡ document_id
      → d.tenant_id ≡ tenant
      → is_deleted d.status ≡ true
  none_removable document_id tenant r z d m i t = elim (Bool-cases (is_deleted d.status)) [
    | inl gone ↦ gone
    | inr live ↦
        let k : is_removable document_id tenant d ≡ true = ground (arith, i, t, live) in
        absurd (
          omega
            (arith, z, count_by-pos_of_Member (is_removable document_id tenant) d r.documents m k))
  ]

  -- On consistent committed tables the deletion of a document has one of four outcomes: there is no
  -- such document of the tenant of the key that is not deleted, the answer is 404 and nothing is
  -- changed; or an exception is raised before the commit, and the committed tables, the index and the
  -- files are as before; or the row of the document is committed as deleted and no other row changes,
  -- no node of it is left in either store and no cached answer cites it, the nodes of all other
  -- documents stay, the file is removed only if it lies under the upload root, and the BM25 index has
  -- exactly the chunks of the collection if there are any; or all this is so but for the index, and
  -- the exception of its rebuild is raised.
  pub delete_document-Removal :
      (document_id : ℕ) (api_key : ApiKey) (site : Site docstore store qdrant) (files : Files)
      → IsConsistent site.world.committed
      → Removal document_id api_key site files (
          delete_document docstore store qdrant upload_root bm25 unlink document_id api_key site
            files)
  unfolding delete_document remove_document
  delete_document-Removal document_id api_key site files c =
      let begun : State docstore store qdrant = record site.world {
        registry = site.world.committed;
      } in
      let r = site.world.committed in
      elim (scalar-Member (is_removable document_id api_key.tenant_id) r.documents
        (removable_once document_id api_key.tenant_id r c)) [
          | inl (none_found, z) ↦
              rw none_found (not_found (none_removable document_id api_key.tenant_id r z) refl)
          | inr (d, found, m, k) ↦
              let step = delete_row docstore store qdrant d begun in
              elim (Result-cases step.0) [
                | inl (e, failed) ↦
                    rw (found, failed)
                      (raised e refl
                        (delete_row-committed docstore store qdrant site.world.committed d begun
                          refl)
                        refl refl)
                | inr (u, done) ↦
                    let x =
                      delete_row-IsRowDeleted docstore store qdrant d begun step.1
                        (ap (λ y. (y, step.1)) done) in
                    rw (found, done)
                      (Removal-of_removed document_id api_key d site files _
                        (record step.1 { committed = step.1.registry }) m (ground (arith, k))
                        (ground (arith, k)) (ground (arith, k)) (IsRemoved-of_row d site step.1 x)
                        (λ ne. ground (arith, ne)))
              ]
        ]
