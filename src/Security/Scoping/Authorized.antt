-- ===== src/Security/Scoping/Authorized.antt =====
-- No request gets filters that reach outside the scope of its key.
use mathlib.Core.Path.{subst}
use enterprise_doc_rag.Common.{
  String, ◌≡◌, refl, ◌↔◌, ◌⊎◌, inl, inr, Bool, true, false, ◌&&◌, ◌||◌, Option, none, some, List,
  [], ◌∷◌, arith, string_eq, option_eq, contains, all, Bool-cases, Member, Member-select,
}
use enterprise_doc_rag.Common.Result.{ok, err, http, first_returned}
use enterprise_doc_rag.Retrieval.Filters.{
  NodeMetadata, SearchFilters, NodeWithScore, or_empty, is_empty, is_in, overlaps,
  node_matches_filters, retrieve_filtered,
}
use enterprise_doc_rag.Security.Keys.{ApiKey, get}
use enterprise_doc_rag.Security.Scoping.{disallowed, scoped_facet, resolve_scoped_filters}

abbrev pub is_subset : List String → List String → Bool
is_subset xs ys = all (contains ys) xs

disallowed_empty : (xs ys : List String) → is_empty (disallowed xs ys) ≡ is_subset xs ys
disallowed_empty [] ys = refl
disallowed_empty (x ∷ xs) ys = ground (arith, disallowed_empty xs ys)

contains-subset :
    (v : String) (xs ys : List String)
    → is_subset xs ys ≡ true
    → contains xs v ≡ true
    → contains ys v ≡ true
contains-subset v [] ys s h = cc
contains-subset v (x ∷ xs) ys s h = ground (arith, contains-subset v xs ys)

is_subset-cons :
    (y : String) (xs ys : List String) → is_subset xs ys ≡ true → is_subset xs (y ∷ ys) ≡ true
is_subset-cons y [] ys h = refl
is_subset-cons y (x ∷ xs) ys h = ground (arith, is_subset-cons y xs ys)

is_subset_refl : (xs : List String) → is_subset xs xs ≡ true
is_subset_refl [] = refl
is_subset_refl (x ∷ xs) = ground (arith, is_subset-cons x xs xs (is_subset_refl xs))

overlaps-subset :
    (vs xs ys : List String)
    → is_subset xs ys ≡ true
    → overlaps vs xs ≡ true
    → overlaps vs ys ≡ true
overlaps-subset [] xs ys s h = h
overlaps-subset (v ∷ vs) xs ys s h =
    ground (arith, contains-subset v xs ys s, overlaps-subset vs xs ys s)

is_in-subset :
    (v : Option String) (xs ys : List String)
    → is_subset xs ys ≡ true
    → is_in v xs ≡ true
    → is_in v ys ≡ true
is_in-subset none xs ys s h = h
is_in-subset (some v) xs ys s h = contains-subset v xs ys s h

-- A facet of the filters respects what the key allows: where the key restricts it, it names
-- something, and nothing outside.
abbrev pub Within : Option (List String) → Option (List String) → Type 0
Within allowed facet =
    (is_empty (or_empty allowed) ≡ true)
    ⊎ ((is_empty (or_empty facet) ≡ false) × (is_subset (or_empty facet) (or_empty allowed) ≡ true))

scoped_facet-Within :
    (requested allowed : Option (List String)) (facet : Option (List String))
    → scoped_facet requested allowed ≡ ok facet
    → Within allowed facet
unfolding scoped_facet
scoped_facet-Within requested allowed facet h = ground (
  arith,
  disallowed_empty (or_empty requested) (or_empty allowed),
  is_subset_refl (or_empty allowed),
)

-- A request asks for a facet as it may.
abbrev pub may_request : Option (List String) → Option (List String) → Bool
may_request allowed requested =
    is_empty (or_empty allowed)
    || is_empty (or_empty requested)
    || is_subset (or_empty requested) (or_empty allowed)

scoped_facet-may_request :
    (requested allowed : Option (List String))
    → ((may_request allowed requested ≡ true)
        × (facet : Option (List String)) × (scoped_facet requested allowed ≡ ok facet))
      ⊎ ((may_request allowed requested ≡ false)
          × (scoped_facet requested allowed ≡ err (http 403)))
unfolding scoped_facet
scoped_facet-may_request requested allowed = elim (Bool-cases (is_empty (or_empty allowed))) [
  | inl a ↦ inl (rw a, requested, rw a)
  | inr a ↦ elim (Bool-cases (is_empty (or_empty requested))) [
    | inl b ↦ inl (rw (a, b), some (or_empty allowed), rw (a, b))
    | inr b ↦ elim (Bool-cases (is_subset (or_empty requested) (or_empty allowed))) [
      | inl s ↦ inl (rw (a, b, s), requested, rw (a, b, disallowed_empty, s))
      | inr s ↦ inr (rw (a, b, s), rw (a, b, disallowed_empty, s))
    ]
  ]
]

-- What a key may see: its own tenant, and of each facet that it restricts only the allowed values.
pub record IsAuthorized (k : ApiKey) (m : NodeMetadata) : Type 0 where
  pub tenant : m.tenant_id ≡ some k.tenant_id
  pub department :
      (is_empty (or_empty (get "department" k.allowed_filters)) ≡ true)
      ⊎ (is_in m.department (or_empty (get "department" k.allowed_filters)) ≡ true)
  pub doc_type :
      (is_empty (or_empty (get "doc_type" k.allowed_filters)) ≡ true)
      ⊎ (is_in m.doc_type (or_empty (get "doc_type" k.allowed_filters)) ≡ true)
  pub tags :
      (is_empty (or_empty (get "tags" k.allowed_filters)) ≡ true)
      ⊎ (overlaps (or_empty m.tags) (or_empty (get "tags" k.allowed_filters)) ≡ true)

-- The filters of an accepted request.
pub record IsScoped (k : ApiKey) (f : SearchFilters) : Type 0 where
  pub tenant : f.tenant_id ≡ k.tenant_id
  pub department : Within (get "department" k.allowed_filters) f.department
  pub doc_type : Within (get "doc_type" k.allowed_filters) f.doc_type
  pub tags : Within (get "tags" k.allowed_filters) f.tags

module _ (k : ApiKey) (department doc_type tags : Option (List String)) where
  -- The filters of an accepted request name the tenant of the key, whatever the request; a facet
  -- that the key restricts is never left open and names allowed values only.
  pub resolve_scoped_filters-IsScoped :
      (f : SearchFilters) → resolve_scoped_filters k department doc_type tags ≡ ok f → IsScoped k f
  unfolding resolve_scoped_filters
  resolve_scoped_filters-IsScoped f h =
      let (d, h1, e1) =
        first_returned _ (scoped_facet department (get "department" k.allowed_filters)) h in
      let (t, h2, e2) =
        first_returned _ (scoped_facet doc_type (get "doc_type" k.allowed_filters)) h1 in
      let (g, h3, e3) = first_returned _ (scoped_facet tags (get "tags" k.allowed_filters)) h2 in
      let granted : SearchFilters = record {
        tenant_id = k.tenant_id;
        department = d;
        doc_type = t;
        tags = g;
      } in
      let same : granted ≡ f = cc h3 in
      subst (IsScoped k) same (record {
        tenant = refl;
        department = scoped_facet-Within department (get "department" k.allowed_filters) d e1;
        doc_type = scoped_facet-Within doc_type (get "doc_type" k.allowed_filters) t e2;
        tags = scoped_facet-Within tags (get "tags" k.allowed_filters) g e3;
      })

  -- A request is answered by 403 exactly when it names, for a facet that the key restricts, a value
  -- outside the allowed ones; otherwise it is accepted.
  pub resolve_scoped_filters_rejects :
      (resolve_scoped_filters k department doc_type tags ≡ err (http 403)) ↔ (
        (may_request (get "department" k.allowed_filters) department
          && may_request (get "doc_type" k.allowed_filters) doc_type
          && may_request (get "tags" k.allowed_filters) tags)
        ≡ false)
  unfolding resolve_scoped_filters
  resolve_scoped_filters_rejects =
      elim (scoped_facet-may_request department (get "department" k.allowed_filters)) [
        | inr (a, e) ↦ ground arith
        | inl (a, d, e) ↦
            elim (scoped_facet-may_request doc_type (get "doc_type" k.allowed_filters)) [
              | inr (b, f) ↦ ground arith
              | inl (b, t, f) ↦
                  elim (scoped_facet-may_request tags (get "tags" k.allowed_filters)) [
                    | inr (x, g) ↦ ground arith
                    | inl (x, y, g) ↦ ground arith
                  ]
            ]
      ]

-- What the post-hoc filter lets through, test by test.
matches_parts :
    (m : NodeMetadata) (f : SearchFilters)
    → node_matches_filters m f ≡ true
    → (m.tenant_id ≡ some f.tenant_id)
      × ((is_empty (or_empty f.department) ≡ true)
          ⊎ (is_in m.department (or_empty f.department) ≡ true))
      × ((is_empty (or_empty f.doc_type) ≡ true) ⊎ (is_in m.doc_type (or_empty f.doc_type) ≡ true))
      × ((is_empty (or_empty f.tags) ≡ true)
          ⊎ (overlaps (or_empty m.tags) (or_empty f.tags) ≡ true))
unfolding node_matches_filters
matches_parts m f h = ground arith

facet_authorized :
    (v : Option String) (allowed facet : Option (List String))
    → Within allowed facet
    → (is_empty (or_empty facet) ≡ true) ⊎ (is_in v (or_empty facet) ≡ true)
    → (is_empty (or_empty allowed) ≡ true) ⊎ (is_in v (or_empty allowed) ≡ true)
facet_authorized v allowed facet (inl free) h = inl free
facet_authorized v allowed facet (inr (named, within)) (inl e) = cc
facet_authorized v allowed facet (inr (named, within)) (inr e) =
    inr (is_in-subset v (or_empty facet) (or_empty allowed) within e)

tags_authorized :
    (vs : List String) (allowed facet : Option (List String))
    → Within allowed facet
    → (is_empty (or_empty facet) ≡ true) ⊎ (overlaps vs (or_empty facet) ≡ true)
    → (is_empty (or_empty allowed) ≡ true) ⊎ (overlaps vs (or_empty allowed) ≡ true)
tags_authorized vs allowed facet (inl free) h = inl free
tags_authorized vs allowed facet (inr (named, within)) (inl e) = cc
tags_authorized vs allowed facet (inr (named, within)) (inr e) =
    inr (overlaps-subset vs (or_empty facet) (or_empty allowed) within e)

-- A node that passes the filters of an accepted request is one that the key may see.
pub IsAuthorized-of_matches :
    (k : ApiKey) (m : NodeMetadata) (f : SearchFilters)
    → IsScoped k f
    → node_matches_filters m f ≡ true
    → IsAuthorized k m
IsAuthorized-of_matches k m f s h =
    let (t, d, dt, g) = matches_parts m f h in
    record {
      tenant = rw s.tenant at t;
      department =
          facet_authorized m.department (get "department" k.allowed_filters) f.department
            s.department d;
      doc_type =
          facet_authorized m.doc_type (get "doc_type" k.allowed_filters) f.doc_type s.doc_type dt;
      tags = tags_authorized (or_empty m.tags) (get "tags" k.allowed_filters) f.tags s.tags g;
    }

module _ {Score : Type 0} (k : ApiKey) (department doc_type tags : Option (List String)) where
  -- Of whatever nodes the BM25 retriever finds, an accepted request is shown only such as its key
  -- may see: those of the key's tenant, and of a restricted facet those with an allowed value.
  pub retrieve_filtered-IsAuthorized :
      (f : SearchFilters)
      → resolve_scoped_filters k department doc_type tags ≡ ok f
      → (nodes : List (NodeWithScore Score)) (n : NodeWithScore Score)
      → Member n (retrieve_filtered f nodes)
      → Member n nodes × IsAuthorized k n.metadata
  unfolding retrieve_filtered
  retrieve_filtered-IsAuthorized f h nodes n shown =
      let (found, matches) = Member-select (λ x. node_matches_filters x.metadata f) n nodes shown in
      (
        found,
        IsAuthorized-of_matches k n.metadata f
            (resolve_scoped_filters-IsScoped k department doc_type tags f h) matches,
      )
