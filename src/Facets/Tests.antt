-- ===== src/Facets/Tests.antt =====
-- The facets of one of two tenants.
use enterprise_doc_rag.Common.{
  ℕ, String, ◌≡◌, ◌↔◌, refl, true, none, some, List, [], ◌∷◌, string_eq, Member,
}
use enterprise_doc_rag.Security.Keys.{ApiKey}
use enterprise_doc_rag.Registry.{Document, Status, completed, deleted}
use enterprise_doc_rag.Facets.{get_facets}
use enterprise_doc_rag.Facets.Offered.{IsHeld, MayShow, HasTag, get_facets_lem}

abbrev document : ℕ → String → String → Status → Document
document i tenant department status = record {
  id = i;
  tenant_id = tenant;
  source_path = "a.pdf";
  ingestion_root = "/data";
  file_name = "a.pdf";
  file_type = "pdf";
  current_version = 1;
  content_hash = "h";
  size_bytes = 3;
  department = some department;
  doc_type = some "policy";
  tags = some ("x" ∷ "y" ∷ []);
  status = status;
  num_chunks = 2;
  created_at = 5;
}

abbrev documents : List Document
documents =
    document 1 "acme" "legal" completed
    ∷ document 2 "acme" "hr" completed
    ∷ document 3 "globex" "sales" completed
    ∷ document 4 "acme" "it" deleted
    ∷ document 5 "acme" "legal" completed
    ∷ []

abbrev key : ApiKey
key = record {
  id = 1;
  tenant_id = "acme";
  name = "demo";
  key_hash = "";
  key_prefix = "edr_";
  allowed_filters = ("department", "legal" ∷ "sales" ∷ []) ∷ [];
  is_admin = true;
  created_at = 5;
  revoked_at = none;
  last_used_at = none;
}

facets_run :
    get_facets key documents
    ≡ record { department = "legal" ∷ []; doc_type = "policy" ∷ []; tags = "x" ∷ "y" ∷ [] }
unfolding get_facets string_eq
facets_run = refl

get_facets_lem_example :
    (Member "sales" (get_facets key documents).department ↔ (
      IsHeld (λ d. d.department ≡ some "sales") key documents × MayShow key "department" "sales"))
    × (Member "sales" (get_facets key documents).doc_type
        ↔ (IsHeld (λ d. d.doc_type ≡ some "sales") key documents × MayShow key "doc_type" "sales"))
    × (Member "sales" (get_facets key documents).tags
        ↔ (IsHeld (HasTag "sales") key documents × MayShow key "tags" "sales"))
get_facets_lem_example = get_facets_lem key documents "sales"
