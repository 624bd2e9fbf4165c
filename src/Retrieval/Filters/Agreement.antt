-- ===== src/Retrieval/Filters/Agreement.antt =====
-- The filter given to Qdrant and the post-hoc filter for BM25 select the same nodes.
use enterprise_doc_rag.Common.{
  String, ◌≡◌, refl, Bool, ◌&&◌, ◌||◌, Option, none, some, List, [], ◌∷◌, ◌++◌, arith, ◌==◌,
  string_eq, option_eq, contains, all,
}
use enterprise_doc_rag.Retrieval.Filters.{
  NodeMetadata, SearchFilters, PayloadMatching, admits, build_metadata_filters, facet_filter,
  node_matches_filters, payload, option_list, or_empty, is_empty, is_in, overlaps, in_list, any_of,
  one, eq,
}

payload_tenant : (m : NodeMetadata) → payload "tenant_id" m ≡ option_list m.tenant_id
unfolding string_eq
payload_tenant m = refl

payload_department : (m : NodeMetadata) → payload "department" m ≡ option_list m.department
unfolding string_eq
payload_department m = refl

payload_doc_type : (m : NodeMetadata) → payload "doc_type" m ≡ option_list m.doc_type
unfolding string_eq
payload_doc_type m = refl

payload_tags : (m : NodeMetadata) → payload "tags" m ≡ or_empty m.tags
unfolding string_eq
payload_tags m = refl

overlaps-option_list :
    (v : Option String) (vs : List String) → overlaps (option_list v) vs ≡ is_in v vs
overlaps-option_list none vs = refl
overlaps-option_list (some v) vs = ground arith

contains-option_list : (v : Option String) (t : String) → contains (option_list v) t ≡ (v == some t)
unfolding option_eq
contains-option_list none t = ground arith
contains-option_list (some v) t = ground arith

all-append :
    {A : Type 0} (p : A → Bool) (xs ys : List A) → all p (xs ++ ys) ≡ (all p xs && all p ys)
all-append p [] ys = refl
all-append p (x ∷ xs) ys = ground (arith, all-append p xs ys)

module _ (q : PayloadMatching) (m : NodeMetadata) where
  admits-in_list :
      (k : String) (vs : Option (List String))
      → admits q (facet_filter k in_list vs) m
        ≡ (is_empty (or_empty vs) || overlaps (payload k m) (or_empty vs))
  admits-in_list k none = refl
  admits-in_list k (some []) = refl
  admits-in_list k (some (v ∷ vs)) = ground (arith, q.holds-in_list k (v ∷ vs) m)

  admits-any_of :
      (k : String) (vs : Option (List String))
      → admits q (facet_filter k any_of vs) m
        ≡ (is_empty (or_empty vs) || overlaps (payload k m) (or_empty vs))
  admits-any_of k none = refl
  admits-any_of k (some []) = refl
  admits-any_of k (some (v ∷ vs)) = ground (arith, q.holds-any_of k (v ∷ vs) m)

  -- The three facets and the tenant, each as the post-hoc filter tests it.
  admits_facet :
      (k : String) (v : Option String) (vs : Option (List String))
      → payload k m ≡ option_list v
      → admits q (facet_filter k in_list vs) m ≡ (is_empty (or_empty vs) || is_in v (or_empty vs))
  admits_facet k v vs e = rw (admits-in_list k vs, e, overlaps-option_list v (or_empty vs))

  admits_tags :
      (vs : Option (List String))
      → admits q (facet_filter "tags" any_of vs) m
        ≡ (is_empty (or_empty vs) || overlaps (or_empty m.tags) (or_empty vs))
  admits_tags vs = rw (admits-any_of "tags" vs, payload_tags m)

  holds_tenant :
      (t : String)
      → q.holds (record { key = "tenant_id"; value = one t; operator = eq }) m
        ≡ (m.tenant_id == some t)
  holds_tenant t =
      rw (q.holds-eq "tenant_id" t m, payload_tenant m, contains-option_list m.tenant_id t)

  -- Whatever the caller's filters and the node's metadata, the conditions that
  -- `build_metadata_filters` gives to Qdrant, read as Qdrant documents them, admit exactly the
  -- nodes that `node_matches_filters` lets through.
  pub admits-build_metadata_filters :
      (f : SearchFilters) → admits q (build_metadata_filters f) m ≡ node_matches_filters m f
  unfolding build_metadata_filters node_matches_filters
  admits-build_metadata_filters f =
      rw
        (
          holds_tenant f.tenant_id,
          all-append (λ x. q.holds x m) (facet_filter "department" in_list f.department),
          all-append (λ x. q.holds x m) (facet_filter "doc_type" in_list f.doc_type),
          admits_facet "department" m.department f.department (payload_department m),
          admits_facet "doc_type" m.doc_type f.doc_type (payload_doc_type m),
          admits_tags f.tags,
        )
        (ground arith)
