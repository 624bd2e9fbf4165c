-- ===== src/Registry/Repeated.antt =====
-- Repeated calls of versioning.py: a queued upload that is ingested, and an ingestion of what is
-- known already.
use enterprise_doc_rag.Common.{
  ℕ, ◌+◌, ◌≡◌, refl, sym, ◌∙◌, inl, true, false, none, some, ◌∷◌, arith, string_eq, nat_eq, Member,
  Member_of_update_where,
}
use enterprise_doc_rag.Common.Result.{ok, ◌>>=◌}
use enterprise_doc_rag.Registry.{
  Document, Registry, FileInfo, VersionDecision, queued, has_key, has_id, find_document,
  new_document, update_document, is_unchanged, get_or_create_document, register_queued_upload,
  requeue, finalize_document, finalize,
}
use enterprise_doc_rag.Registry.History.{rows, History-queued}
use enterprise_doc_rag.Registry.Updates.{IsConsistent-set, finalize_document-IsConsistent}
use enterprise_doc_rag.Registry.Consistent.{
  IsConsistent, IsFresh, Member_of_found, found_of_Member, IsConsistent-add, none_of_absent,
}
use enterprise_doc_rag.Registry.Lifecycle.{
  IsStarted, get_or_create_document-version, IsConsistent-of_ok, IsStarted-of_changed,
  unchanged_of_completed,
}

-- A document that is registered as an upload and then processed.
module _ (id1 id2 t1 t2 : ℕ) (file : FileInfo) (r : Registry) (c : IsConsistent r) where
  -- The first upload of a file is registered and ingested as version 1, under the id that the
  -- registration drew, and counts as new.
  pub upload_new :
      IsFresh id1 r
      → find_document file.tenant_id file.source_path r ≡ ok none
      → (out : VersionDecision × Registry) × ((register_queued_upload id1 t1 file r
            >>= get_or_create_document id2 t2 file)
          ≡ ok out)
        × (out.0.document.id ≡ id1)
        × (out.0.document.current_version ≡ 1)
        × (out.0.is_new ≡ true)
  unfolding register_queued_upload is_unchanged
  upload_new fresh absent =
      let d = new_document id1 t1 queued file in
      let r' = record r { documents = d ∷ r.documents } in
      let c' : IsConsistent r' =
        IsConsistent-add r c d fresh (none_of_absent file.tenant_id file.source_path r c absent) _
          (History-queued id1 r.versions fresh.no_version) (λ j cv ne h. h) in
      let found' : find_document file.tenant_id file.source_path r' ≡ ok (some d) =
        found_of_Member file.tenant_id file.source_path r' d c' (inl refl) (ground arith) in
      let (out, e, i, v, n) = get_or_create_document-version id2 t2 file r' c' d found' in
      rw absent
        ((out, e, i, ground (arith, v, fresh.no_version 1), ground (arith, n, fresh.no_version 1)))

  -- Uploading a file again, whose document has an open version, starts the next version, also where
  -- the contents are those of the completed version.
  pub upload_again :
      (d : Document)
      → find_document file.tenant_id file.source_path r ≡ ok (some d)
      → rows d.id d.current_version r.versions ≡ 1
      → (out : VersionDecision × Registry) × ((register_queued_upload id1 t1 file r
            >>= get_or_create_document id2 t2 file)
          ≡ ok out)
        × (out.0.document.id ≡ d.id)
        × (out.0.document.current_version ≡ d.current_version + 1)
        × (out.0.is_new ≡ false)
  unfolding register_queued_upload is_unchanged
  upload_again d found versioned =
      let (m, k) = Member_of_found file.tenant_id file.source_path r d c found in
      let r' = update_document d.id (requeue file) r in
      let c' : IsConsistent r' =
        IsConsistent-set r c d m (requeue file) (λ x. (refl, refl, refl)) (λ x. refl) in
      let m' : Member (requeue file d) r'.documents =
        Member_of_update_where (has_id d.id) (requeue file) d r.documents m (ground arith) in
      let found' : find_document file.tenant_id file.source_path r' ≡ ok (some (requeue file d)) =
        found_of_Member file.tenant_id file.source_path r' (requeue file d) c' m' k in
      let (out, e, i, v, n) =
        get_or_create_document-version id2 t2 file r' c' (requeue file d) found' in
      rw found ((out, e, i, ground (arith, v), ground (arith, n)))

-- Once a started ingestion is finalized, a later call for the same key and contents finds nothing
-- to do: it returns the completed row as unchanged, and leaves every table as it is. The other
-- metadata of the second call may differ.
module _ (id1 id2 t1 t2 : ℕ) (file again : FileInfo) (r : Registry) (c : IsConsistent r) where
  pub ingest_again :
      IsFresh id1 r
      → again.tenant_id ≡ file.tenant_id
      → again.source_path ≡ file.source_path
      → again.content_hash ≡ file.content_hash
      → (out : VersionDecision × Registry) → get_or_create_document id1 t1 file r ≡ ok out
      → out.0.changed ≡ true
      → (num_chunks : ℕ)
      → (r' : Registry) × (finalize_document out.0.document num_chunks out.1 ≡ ok r')
        × (get_or_create_document id2 t2 again r'
            ≡ ok (
              record {
                document = finalize num_chunks out.0.document;
                is_new = false;
                changed = false;
              },
              r',
            ))
  ingest_again fresh et ep eh out e h num_chunks =
      let s : IsStarted file out.0.document out.1 = IsStarted-of_changed id1 t1 file r c out e h in
      let c1 : IsConsistent out.1 = IsConsistent-of_ok id1 t1 file r c fresh out e in
      let (r', f, c', docs) =
        finalize_document-IsConsistent out.1 c1 out.0.document s.stored num_chunks in
      let m' : Member (finalize num_chunks out.0.document) r'.documents = rw docs (
        Member_of_update_where (has_id out.0.document.id) (finalize num_chunks) out.0.document
          out.1.documents s.stored (ground arith)) in
      let k' : has_key again.tenant_id again.source_path (finalize num_chunks out.0.document)
          ≡ true =
        rw (et, ep) s.key in
      (r', f, unchanged_of_completed id2 t2 again r' c' _ m' k' (s.hash ∙ sym eh) refl)
