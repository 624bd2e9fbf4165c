-- ===== src/Security/Scoping.antt =====
-- core/security/scoping.py: the filters of a request, within the scope of its key. The detail text
-- of the 403 answer is left out.
pub mod Authorized
mod Tests
use enterprise_doc_rag.Common.{
  String, Bool, true, false, not, Option, none, some, List, [], ◌∷◌, ◌==◌, string_eq, if◌then◌else◌,
  contains, select,
}
use enterprise_doc_rag.Common.Result.{Result, ok, err, http, ◌>>=◌}
use enterprise_doc_rag.Retrieval.Filters.{SearchFilters, or_empty, is_empty}
use enterprise_doc_rag.Security.Keys.{ApiKey, get}

-- `set(requested) - set(allowed)`, of which the code asks only whether it is empty.
abbrev pub disallowed : List String → List String → List String
disallowed requested allowed = select (λ v. not (contains allowed v)) requested

scoped_facet : Option (List String) → Option (List String) → Result (Option (List String))
scoped_facet requested allowed =
    if is_empty (or_empty allowed)
    then ok requested
    else if is_empty (or_empty requested)
    then ok (some (or_empty allowed))
    else if not (is_empty (disallowed (or_empty requested) (or_empty allowed)))
    then err (http 403)
    else ok requested

unfoldable pub resolve_scoped_filters :
    ApiKey
    → Option (List String)
    → Option (List String)
    → Option (List String)
    → Result SearchFilters
unfolding scoped_facet
resolve_scoped_filters api_key department doc_type tags = do
  d ← scoped_facet department (get "department" api_key.allowed_filters)
  t ← scoped_facet doc_type (get "doc_type" api_key.allowed_filters)
  g ← scoped_facet tags (get "tags" api_key.allowed_filters)
  ok (record { tenant_id = api_key.tenant_id; department = d; doc_type = t; tags = g })
