-- ===== src/Registry/Marked.antt =====
-- The rows of a registry after `mark_document_failed`.
use mathlib.Core.Path.{subst}
use enterprise_doc_rag.Common.{
  Member_of_update_where, true, ◌≡◌, sym, ap, some, arith, Bool-cases, refl, scalar-Member_of,
  Member-select, Member-update_where, eq_of_count_by, inl, inr, String, update_where, Member,
  string_eq, nat_eq,
}
use enterprise_doc_rag.Common.Result.{ok}
use enterprise_doc_rag.Registry.{
  Document, Registry, find_document, has_key, update_document, mark_found, failed, has_id,
  with_status, mark_document_failed,
}
use enterprise_doc_rag.Registry.Consistent.{IsConsistent, find_document-cases}

-- A document that the marking finds is failed afterwards.
pub mark_document_failed-status :
    (r : Registry)
    → IsConsistent r
    → (t p : String) (out : Registry) → mark_document_failed t p r ≡ ok out
    → (d : Document) → find_document t p out ≡ ok (some d)
    → d.status ≡ failed
unfolding mark_document_failed mark_found
mark_document_failed-status r c t p out h d found = elim (find_document-cases t p r c) [
  | inl (e, z) ↦ let same : r ≡ out = cc (rw e at h) in absurd (cc (e, found, same))
  | inr (x, e, m, k) ↦
      let same : update_document x.id (with_status failed) r ≡ out = cc (rw e at h) in
      let found' = subst (λ y. find_document t p y ≡ ok (some d)) (sym same) found in
      let n = scalar-Member_of _ d found' in
      let (n', key) =
        Member-select (has_key t p) d (update_where (has_id x.id) (with_status failed) r.documents)
          n in
      let (y, my, ey) = Member-update_where (has_id x.id) (with_status failed) d r.documents n' in
      elim (Bool-cases (has_id x.id y)) [
        | inl here ↦ let ey' : d ≡ with_status failed y = rw here at ey in rw ey' refl
        | inr other ↦
            let ey' : d ≡ y = rw other at ey in
            let same' : y ≡ x =
              eq_of_count_by (has_key t p) y x r.documents my m (rw ey' at key) k
                (c.unique_key t p) in
            absurd (ground (arith, other, ap (λ z. z.id) same'))
      ]
]

-- A key that has a row has one after the marking.
pub mark_document_failed-Member :
    (r : Registry)
    → IsConsistent r
    → (t p : String) (out : Registry) → mark_document_failed t p r ≡ ok out
    → (d : Document) → Member d r.documents
    → has_key t p d ≡ true
    → (d' : Document) × Member d' out.documents × (has_key t p d' ≡ true)
unfolding mark_document_failed mark_found
mark_document_failed-Member r c t p out h d stored key = elim (find_document-cases t p r c) [
  | inl (e, z) ↦
      let same : r ≡ out = cc (rw e at h) in (d, subst (λ x. Member d x.documents) same stored, key)
  | inr (x, e, m, k) ↦
      let same : update_document x.id (with_status failed) r ≡ out = cc (rw e at h) in
      (
        with_status failed x,
        subst (λ y. Member (with_status failed x) y.documents) same
            (Member_of_update_where (has_id x.id) (with_status failed) x r.documents m
              (ground arith)),
        k,
      )
]
