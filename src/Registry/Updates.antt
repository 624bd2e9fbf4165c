-- ===== src/Registry/Updates.antt =====
-- The operations that never start a version keep the invariant too.
use mathlib.Core.Path.{subst}
use enterprise_doc_rag.Common.{
  Member_of_update_where, none, true, ℕ, ◌≡◌, refl, some, arith, Bool-cases, Member-update_where,
  inl, inr, String, List, string_eq, nat_eq, count_by-update_where, update_where, Member,
  scalar-Member,
}
use enterprise_doc_rag.Common.Result.{Result, ok}
use enterprise_doc_rag.Registry.{
  Status, Document, DocumentVersion, Registry, FileInfo, has_key, update_document, register_found,
  queued, failed, has_id, is_row, new_document, requeue, with_status, finalize, count_chunks,
  register_queued_upload, mark_document_failed, finalize_document,
}
use enterprise_doc_rag.Registry.History.{rows, open_rows, History-queued, History-same}
use enterprise_doc_rag.Registry.Consistent.{
  IsConsistent, IsFresh, find_document-cases, IsConsistent-update, unique_id-update,
  unique_key-update, IsConsistent-add,
}

abbrev pub KeptRegistry : Result Registry → Type 0
KeptRegistry res = (out : Registry) × (res ≡ ok out) × IsConsistent out

-- Attributes of `d` that are neither its id, its key nor its version.
pub IsConsistent-set :
    (r : Registry)
    → IsConsistent r
    → (d : Document) → Member d r.documents
    → (f : Document → Document)
    → ((x : Document)
        → ((f x).id ≡ x.id) × ((f x).tenant_id ≡ x.tenant_id) × ((f x).source_path ≡ x.source_path))
    → ((x : Document) → (f x).current_version ≡ x.current_version)
    → IsConsistent (record r { documents = update_where (has_id d.id) f r.documents })
IsConsistent-set r c d m f same version =
    IsConsistent-update r c d m f same r.versions (rw version (c.history d m)) (λ j cv ne h. h)

-- A row gets its number of chunks: no count of rows changes.
pub rows-count_chunks :
    (i n j m k : ℕ) (vs : List DocumentVersion)
    → rows i n (update_where (is_row j m) (count_chunks k) vs) ≡ rows i n vs
rows-count_chunks i n j m k vs = count_by-update_where _ _ _ vs (λ v h. refl)

pub open_rows-count_chunks :
    (i n j m k : ℕ) (vs : List DocumentVersion)
    → open_rows i n (update_where (is_row j m) (count_chunks k) vs) ≡ open_rows i n vs
open_rows-count_chunks i n j m k vs = count_by-update_where _ _ _ vs (λ v h. refl)

module _ (r : Registry) (c : IsConsistent r) where
  -- `register_queued_upload` never raises and keeps the tables consistent.
  pub register_queued_upload-IsConsistent :
      (new_id now : ℕ) (file : FileInfo)
      → IsFresh new_id r
      → KeptRegistry (register_queued_upload new_id now file r)
  unfolding register_queued_upload
  register_queued_upload-IsConsistent new_id now file fresh =
      elim (find_document-cases file.tenant_id file.source_path r c) [
        | inl (e, z) ↦ rw e (
            (
              _,
              refl,
              IsConsistent-add r c (new_document new_id now queued file) fresh z _
                  (History-queued new_id r.versions fresh.no_version) (λ j cv ne h. h),
            ))
        | inr (d, e, m, k) ↦ rw e (
            (
              _,
              refl,
              IsConsistent-set r c d m (requeue file) (λ x. (refl, refl, refl)) (λ x. refl),
            ))
      ]

  -- So does `mark_document_failed`.
  pub mark_document_failed-IsConsistent : (t p : String) → KeptRegistry (mark_document_failed t p r)
  unfolding mark_document_failed
  mark_document_failed-IsConsistent t p = elim (find_document-cases t p r c) [
    | inl (e, z) ↦ rw e ((_, refl, c))
    | inr (d, e, m, k) ↦ rw e (
        (
          _,
          refl,
          IsConsistent-set r c d m (with_status failed) (λ x. (refl, refl, refl)) (λ x. refl),
        ))
  ]

  pub IsConsistent-count_chunks :
      (j m k : ℕ)
      → IsConsistent (record r { versions = update_where (is_row j m) (count_chunks k) r.versions })
  IsConsistent-count_chunks j m k = record {
    unique_id = c.unique_id;
    unique_key = c.unique_key;
    history = λ y n.
        History-same y.id y.current_version r.versions _
          (λ a. rows-count_chunks y.id a j m k r.versions)
          (λ a. open_rows-count_chunks y.id a j m k r.versions) (c.history y n);
  }

module _ (r : Registry) (c : IsConsistent r) (d : Document) (m : Member d r.documents) (k : ℕ) where
  finalized : Registry
  finalized = record r { documents = update_where (has_id d.id) (finalize k) r.documents }

  finalized-IsConsistent : IsConsistent finalized
  unfolding finalized
  finalized-IsConsistent =
      IsConsistent-set r c d m (finalize k) (λ x. (refl, refl, refl)) (λ x. refl)

  -- `finalize_document` on a row of the table never raises, keeps the tables consistent, and makes
  -- that row and no other completed, with the number of its chunks.
  pub finalize_document-IsConsistent :
      (out : Registry) × (finalize_document d k r ≡ ok out)
      × IsConsistent out
      × (out.documents ≡ update_where (has_id d.id) (finalize k) r.documents)
  unfolding finalize_document finalized
  finalize_document-IsConsistent =
      elim (scalar-Member (is_row d.id d.current_version) r.versions (c.history d m).current_row) [
        | inl (e, z) ↦ rw e ((_, refl, finalized-IsConsistent, refl))
        | inr (v, e, n, h) ↦ rw e (
            (
              _,
              refl,
              IsConsistent-count_chunks finalized finalized-IsConsistent d.id d.current_version k,
              refl,
            ))
      ]

-- A status changes nothing that the invariant speaks of, whether a row has the id or not.
pub IsConsistent-with_status :
    (r : Registry)
    → IsConsistent r
    → (i : ℕ) (s : Status) → IsConsistent (update_document i (with_status s) r)
IsConsistent-with_status r c i s = record {
  unique_id = unique_id-update r c i (with_status s) (λ d. refl);
  unique_key = unique_key-update r c i (with_status s) (λ d. (refl, refl));
  history = λ d m.
      let (x, n, e) = Member-update_where (has_id i) (with_status s) d r.documents m in
      elim (Bool-cases (has_id i x)) [
        | inl here ↦ let e' : d ≡ with_status s x = rw here at e in rw e' (c.history x n)
        | inr other ↦ let e' : d ≡ x = rw other at e in rw e' (c.history x n)
      ];
}

-- The row of the key is queued afterwards, with what the file brings.
pub register_queued_upload-queued :
    (r : Registry)
    → IsConsistent r
    → (new_id now : ℕ) (file : FileInfo) (out : Registry)
    → register_queued_upload new_id now file r ≡ ok out
    → (d : Document) × Member d out.documents
      × (has_key file.tenant_id file.source_path d ≡ true)
      × (d.status ≡ queued)
      × (d.content_hash ≡ file.content_hash)
      × (d.size_bytes ≡ file.size_bytes)
      × (d.tags ≡ some file.tags)
unfolding register_queued_upload register_found
register_queued_upload-queued r c new_id now file out h =
    elim (find_document-cases file.tenant_id file.source_path r c) [
      | inl (e, z) ↦
          let same : register_found new_id now file r none ≡ out = cc (rw e at h) in
          (
            new_document new_id now queued file,
            subst (λ x. Member (new_document new_id now queued file) x.documents) same (inl refl),
            ground arith,
            refl,
            refl,
            refl,
            refl,
          )
      | inr (x, e, m, k) ↦
          let same : register_found new_id now file r (some x) ≡ out = cc (rw e at h) in
          (
            requeue file x,
            subst (λ y. Member (requeue file x) y.documents) same
                (Member_of_update_where (has_id x.id) (requeue file) x r.documents m
                  (ground arith)),
            k,
            refl,
            refl,
            refl,
            refl,
          )
    ]
