-- ===== src/Retrieval/Citations/Tests.antt =====
-- Two retrieved nodes.
use enterprise_doc_rag.Common.{
  ℕ, length, refl, ◌≡◌, String, Option, none, some, List, [], ◌∷◌, get_elem?,
}
use enterprise_doc_rag.Retrieval.Filters.{NodeWithScore}
use enterprise_doc_rag.Retrieval.Citations.{Citation, build_citations}
use enterprise_doc_rag.Retrieval.Citations.Numbered.{Cites, build_citations_lem}

abbrev node : Option String → String → NodeWithScore ℕ
node page text = record {
  metadata = record {
    tenant_id = some "acme";
    department = none;
    doc_type = none;
    tags = none;
    source_file = some "handbook.pdf";
    document_id = some "7";
    page_label = page;
    section_title = none;
    slide_number = none;
  };
  text = text;
  score = some 3;
}

abbrev nodes : List (NodeWithScore ℕ)
nodes = node (some "1") "Leave is 25 days." ∷ node none "Ask your manager." ∷ []

build_citations_lem_example :
    (length (build_citations nodes) ≡ 2)
    × (c : Citation ℕ) × (get_elem? (build_citations nodes) 1 ≡ some c)
    × Cites 2 (node none "Ask your manager.") c
build_citations_lem_example = build_citations_lem nodes 1 (node none "Ask your manager.") refl
