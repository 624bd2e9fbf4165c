-- ===== src/Retrieval/Search/Tests.antt =====
-- A search over the nodes of two tenants.
use enterprise_doc_rag.Common.{
  ℕ, String, ◌≡◌, refl, true, none, some, List, [], ◌∷◌, string_eq, option_eq, nat_eq,
}
use enterprise_doc_rag.Common.Text.{is_space}
use enterprise_doc_rag.Common.Result.{ok}
use enterprise_doc_rag.Config.{default_settings as settings}
use enterprise_doc_rag.Security.Keys.{ApiKey}
use enterprise_doc_rag.Security.Scoping.{resolve_scoped_filters}
use enterprise_doc_rag.Retrieval.Filters.{
  NodeWithScore, SearchFilters, node_matches_filters, build_metadata_filters, retrieve_filtered,
}
use enterprise_doc_rag.Retrieval.Citations.{Citation, cite, build_citations}
use enterprise_doc_rag.Retrieval.Dedup.{dedupe_sentences, split}
use enterprise_doc_rag.Retrieval.Search.{SearchRequest, filtered_bm25, run_search, search}
use enterprise_doc_rag.Retrieval.Search.Memory.{memory_llama}
use enterprise_doc_rag.Retrieval.Search.Served.{IsServed, search-IsAuthorized}

abbrev node : String → String → NodeWithScore ℕ
node tenant text = record {
  text = text;
  metadata = record {
    tenant_id = some tenant;
    department = some "hr";
    doc_type = none;
    tags = none;
    source_file = none;
    document_id = some "7";
    page_label = none;
    section_title = none;
    slide_number = none;
  };
  score = none;
}

abbrev corpus : List (NodeWithScore ℕ)
corpus = node "globex" "Secret." ∷ node "acme" "Leave." ∷ []

abbrev lower : String → String
lower text = text

abbrev key : ApiKey
key = record {
  id = 1;
  tenant_id = "acme";
  name = "demo";
  key_hash = "";
  key_prefix = "edr_";
  allowed_filters = ("department", "hr" ∷ "legal" ∷ []) ∷ [];
  is_admin = true;
  created_at = 5;
  revoked_at = none;
  last_used_at = none;
}

abbrev request : SearchRequest
request = record { query = "leave"; department = none; doc_type = none; tags = none }

-- The dense retriever and BM25 each find the node of the tenant.
abbrev answer : List (Citation ℕ)
answer = build_citations (node "acme" "Leave." ∷ node "acme" "Leave." ∷ [])

abbrev scope : SearchFilters
scope = record {
  tenant_id = "acme";
  department = some ("hr" ∷ "legal" ∷ []);
  doc_type = none;
  tags = none;
}

search_run : search (memory_llama corpus) settings lower request key (some 2) ≡ ok answer
unfolding search resolve_scoped_filters build_metadata_filters node_matches_filters
    retrieve_filtered filtered_bm25 build_citations dedupe_sentences split string_eq option_eq
    nat_eq is_space
search_run = refl

run_run :
    run_search (memory_llama corpus) settings lower "leave" scope (some 2)
    ≡ ok (node "acme" "Leave." ∷ node "acme" "Leave." ∷ [])
unfolding run_search build_metadata_filters node_matches_filters retrieve_filtered filtered_bm25
    dedupe_sentences split string_eq option_eq nat_eq is_space
run_run = refl

search-IsAuthorized_example :
    IsServed
      (memory_llama corpus)
      settings
      lower
      request
      key
      (some 2)
      0
      (cite 1 (node "acme" "Leave."))
unfolding build_citations
search-IsAuthorized_example =
    search-IsAuthorized (memory_llama corpus) settings lower request key (some 2) answer search_run
      0 (cite 1 (node "acme" "Leave.")) refl
