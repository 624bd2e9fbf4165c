-- ===== src/Cache/Scope.antt =====
-- Filters under one scope key admit the same nodes.
use enterprise_doc_rag.Common.{
  String, ◌≡◌, refl, sym, ap, ◌∙◌, true, false, Option, none, some, List, [], ◌∷◌, arith, string_eq,
  option_eq, list_eq, contains,
}
use enterprise_doc_rag.Common.Sorting.{sorted, insert_by, text_le, contains-sort_by}
use enterprise_doc_rag.Retrieval.Filters.{
  NodeMetadata, SearchFilters, node_matches_filters, or_empty, is_empty, is_in, overlaps,
}
use enterprise_doc_rag.Cache.{filter_scope_key, same_scope}

is_empty-insert_by : (x : String) (xs : List String) → is_empty (insert_by text_le x xs) ≡ false
is_empty-insert_by x [] = refl
is_empty-insert_by x (y ∷ ys) = ground arith

is_empty-sorted : (xs : List String) → is_empty (sorted xs) ≡ is_empty xs
is_empty-sorted [] = refl
is_empty-sorted (x ∷ xs) = is_empty-insert_by x (sorted xs)

module _ (xs ys : List String) (same : sorted xs ≡ sorted ys) where
  same_values : (a : String) → contains xs a ≡ contains ys a
  same_values a =
      sym (contains-sort_by text_le a xs)
      ∙ (ap (λ zs. contains zs a) same ∙ contains-sort_by text_le a ys)

  same_is_empty : is_empty xs ≡ is_empty ys
  same_is_empty = sym (is_empty-sorted xs) ∙ (ap is_empty same ∙ is_empty-sorted ys)

  same_is_in : (v : Option String) → is_in v xs ≡ is_in v ys
  same_is_in none = refl
  same_is_in (some v) = same_values v

  same_overlaps : (vs : List String) → overlaps vs xs ≡ overlaps vs ys
  same_overlaps [] = refl
  same_overlaps (v ∷ vs) = rw (same_values v, same_overlaps vs)

-- Two filters of one tenant with one scope key admit the same nodes.
pub node_matches_filters_scope :
    (f g : SearchFilters) (m : NodeMetadata)
    → f.tenant_id ≡ g.tenant_id
    → same_scope (filter_scope_key f) (filter_scope_key g) ≡ true
    → node_matches_filters m f ≡ node_matches_filters m g
unfolding node_matches_filters
node_matches_filters_scope f g m t h =
    let department : sorted (or_empty f.department) ≡ sorted (or_empty g.department) =
      ground arith in
    let doc_type : sorted (or_empty f.doc_type) ≡ sorted (or_empty g.doc_type) = ground arith in
    let tags : sorted (or_empty f.tags) ≡ sorted (or_empty g.tags) = ground arith in
    rw (
      t,
      same_is_empty (or_empty f.department) (or_empty g.department) department,
      same_is_in (or_empty f.department) (or_empty g.department) department m.department,
      same_is_empty (or_empty f.doc_type) (or_empty g.doc_type) doc_type,
      same_is_in (or_empty f.doc_type) (or_empty g.doc_type) doc_type m.doc_type,
      same_is_empty (or_empty f.tags) (or_empty g.tags) tags,
      same_overlaps (or_empty f.tags) (or_empty g.tags) tags (or_empty m.tags),
    )
