-- ===== src/Facets.antt =====
-- api/v1/filters.py and schemas/filters.py: the facet values that a client may choose from.
pub mod Offered
mod Tests
use enterprise_doc_rag.Common.{
  String, Bool, not, ◌&&◌, Option, List, [], ◌∷◌, ◌++◌, ◌==◌, string_eq, if◌then◌else◌, contains,
  select,
}
use enterprise_doc_rag.Common.Sorting.{sorted}
use enterprise_doc_rag.Security.Keys.{ApiKey, get}
use enterprise_doc_rag.Retrieval.Filters.{or_empty, is_empty, option_list}
use enterprise_doc_rag.Registry.{Document, is_deleted}

pub record FacetsResponse : Type 0 where
  pub department : List String
  pub doc_type : List String
  pub tags : List String

-- `_restrict`
abbrev pub restrict : List String → Option (List String) → List String
restrict values allowed =
    if is_empty (or_empty allowed) then values else select (contains (or_empty allowed)) values

-- `distinct`, in some order.
abbrev pub distinct : List String → List String
distinct [] = []
distinct (v ∷ vs) = let rest = distinct vs in if contains rest v then rest else v ∷ rest

abbrev pub is_listed : String → Document → Bool
is_listed tenant d = d.tenant_id == tenant && not (is_deleted d.status)

-- The values of a column in the rows of a tenant; a null has none, and an array has its elements.
abbrev pub column : (Document → List String) → String → List Document → List String
column field tenant [] = []
column field tenant (d ∷ documents) =
    let rest = column field tenant documents in if is_listed tenant d then field d ++ rest else rest

abbrev pub departments : Document → List String
departments d = option_list d.department

abbrev pub doc_types : Document → List String
doc_types d = option_list d.doc_type

abbrev pub tags_of : Document → List String
tags_of d = or_empty d.tags

abbrev pub facet : (Document → List String) → String → ApiKey → List Document → List String
facet field name api_key documents =
    restrict (sorted (distinct (column field api_key.tenant_id documents)))
      (get name api_key.allowed_filters)

unfoldable pub get_facets : ApiKey → List Document → FacetsResponse
get_facets api_key documents = record {
  department = facet departments "department" api_key documents;
  doc_type = facet doc_types "doc_type" api_key documents;
  tags = facet tags_of "tags" api_key documents;
}
