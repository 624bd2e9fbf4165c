-- ===== src/Security/Scoping/Tests.antt =====
-- Requests of a key that is restricted to two departments.
use enterprise_doc_rag.Common.{
  ℕ, String, ◌≡◌, refl, ◌↔◌, false, ◌&&◌, Option, none, some, List, [], ◌∷◌, string_eq, option_eq,
}
use enterprise_doc_rag.Common.Result.{ok, err, http}
use enterprise_doc_rag.Retrieval.Filters.{
  SearchFilters, NodeWithScore, node_matches_filters, retrieve_filtered,
}
use enterprise_doc_rag.Security.Keys.{ApiKey, get}
use enterprise_doc_rag.Security.Scoping.{resolve_scoped_filters}
use enterprise_doc_rag.Security.Scoping.Authorized.{
  IsScoped, may_request, resolve_scoped_filters-IsScoped, resolve_scoped_filters_rejects,
}

abbrev acme : ApiKey
acme = record {
  id = 1;
  tenant_id = "acme";
  name = "acme key";
  key_hash = "x";
  key_prefix = "edr_x";
  allowed_filters = ("department", "engineering" ∷ "legal" ∷ []) ∷ [];
  is_admin = false;
  created_at = 0;
  revoked_at = none;
  last_used_at = none;
}

abbrev engineering : Option (List String)
engineering = some ("engineering" ∷ [])

abbrev hr : Option (List String)
hr = some ("hr" ∷ [])

abbrev granted : SearchFilters
granted = record { tenant_id = "acme"; department = engineering; doc_type = none; tags = none }

accepted : resolve_scoped_filters acme engineering none none ≡ ok granted
unfolding resolve_scoped_filters string_eq
accepted = refl

-- Leaving the filter out does not widen the scope.
injected :
    resolve_scoped_filters acme none none none
    ≡ ok (record granted { department = some ("engineering" ∷ "legal" ∷ []) })
unfolding resolve_scoped_filters string_eq
injected = refl

rejected : resolve_scoped_filters acme hr none none ≡ err (http 403)
unfolding resolve_scoped_filters string_eq
rejected = refl

abbrev node : String → String → NodeWithScore ℕ
node tenant department = record {
  text = "";
  metadata = record {
    tenant_id = some tenant;
    department = some department;
    doc_type = none;
    tags = none;
    source_file = none;
    document_id = none;
    page_label = none;
    section_title = none;
    slide_number = none;
  };
  score = none;
}

abbrev found : List (NodeWithScore ℕ)
found = node "globex" "engineering" ∷ node "acme" "engineering" ∷ node "acme" "hr" ∷ []

shown : retrieve_filtered granted found ≡ node "acme" "engineering" ∷ []
unfolding retrieve_filtered node_matches_filters string_eq option_eq
shown = refl

resolve_scoped_filters-IsScoped_example : IsScoped acme granted
resolve_scoped_filters-IsScoped_example =
    resolve_scoped_filters-IsScoped acme engineering none none granted accepted

resolve_scoped_filters_rejects_example :
    (resolve_scoped_filters acme hr none none ≡ err (http 403)) ↔ (
      (may_request (get "department" acme.allowed_filters) hr
        && may_request (get "doc_type" acme.allowed_filters) none
        && may_request (get "tags" acme.allowed_filters) none)
      ≡ false)
resolve_scoped_filters_rejects_example = resolve_scoped_filters_rejects acme hr none none
