-- ===== src/Retrieval/Filters/Tests.antt =====
-- The filters of a request by tag.
use enterprise_doc_rag.Common.{◌≡◌, none, some, [], ◌∷◌, string_eq}
use enterprise_doc_rag.Retrieval.Filters.{
  NodeMetadata, SearchFilters, admits, build_metadata_filters, node_matches_filters,
}
use enterprise_doc_rag.Retrieval.Filters.Payloads.{payload_matching}
use enterprise_doc_rag.Retrieval.Filters.Agreement.{admits-build_metadata_filters}

abbrev tagged : NodeMetadata
tagged = record {
  tenant_id = some "acme";
  department = some "hr";
  doc_type = none;
  tags = some ("onboarding" ∷ []);
  source_file = none;
  document_id = none;
  page_label = none;
  section_title = none;
  slide_number = none;
}

abbrev by_tag : SearchFilters
by_tag = record {
  tenant_id = "acme";
  department = some [];
  doc_type = none;
  tags = some ("benefits" ∷ "onboarding" ∷ []);
}

admits-build_metadata_filters_example :
    admits payload_matching (build_metadata_filters by_tag) tagged
    ≡ node_matches_filters tagged by_tag
admits-build_metadata_filters_example = admits-build_metadata_filters payload_matching tagged by_tag
