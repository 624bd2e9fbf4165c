-- ===== src/Registry/Drawn.antt =====
-- A way to draw fresh ids: one more than the sum of all that are there.
use enterprise_doc_rag.Common.{ℕ, suc, ◌+◌, ◌<◌, ◌≡◌, refl, List, [], ◌∷◌, arith, nat_eq, count_by}
use enterprise_doc_rag.Registry.{Document, DocumentVersion, Registry, has_id, is_row}
use enterprise_doc_rag.Registry.Consistent.{IsFresh}

abbrev document_ids : List Document → ℕ
document_ids [] = 0
document_ids (d ∷ ds) = d.id + document_ids ds

abbrev version_ids : List DocumentVersion → ℕ
version_ids [] = 0
version_ids (v ∷ vs) = v.document_id + version_ids vs

abbrev pub draw : Registry → ℕ
draw r = suc (document_ids r.documents + version_ids r.versions)

no_document-above : (i : ℕ) (ds : List Document) → document_ids ds < i → count_by (has_id i) ds ≡ 0
no_document-above i [] h = refl
no_document-above i (d ∷ ds) h = ground (arith, no_document-above i ds (omega arith))

no_version-above :
    (i n : ℕ) (vs : List DocumentVersion) → version_ids vs < i → count_by (is_row i n) vs ≡ 0
no_version-above i n [] h = refl
no_version-above i n (v ∷ vs) h = ground (arith, no_version-above i n vs (omega arith))

pub draw-IsFresh : (r : Registry) → IsFresh (draw r) r
draw-IsFresh r = record {
  no_document = no_document-above (draw r) r.documents (omega arith);
  no_version = λ n. no_version-above (draw r) n r.versions (omega arith);
}
