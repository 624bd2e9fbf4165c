-- ===== src/Retrieval/Citations.antt =====
-- core/retrieval/citations.py and schemas/citation.py.
pub mod Numbered
mod Tests
use enterprise_doc_rag.Common.{ℕ, ◌+◌, String, Option, List, [], ◌∷◌}
use enterprise_doc_rag.Retrieval.Filters.{NodeWithScore}

pub record Citation (Score : Type 0) : Type 0 where
  pub index : ℕ
  pub text : String
  pub score : Option Score
  pub source_file : Option String
  pub document_id : Option String
  pub page_label : Option String
  pub section_title : Option String
  pub slide_number : Option String

module _ {Score : Type 0} where
  abbrev pub cite : ℕ → NodeWithScore Score → Citation Score
  cite i n = record {
    index = i;
    text = n.text;
    score = n.score;
    source_file = n.metadata.source_file;
    document_id = n.metadata.document_id;
    page_label = n.metadata.page_label;
    section_title = n.metadata.section_title;
    slide_number = n.metadata.slide_number;
  }

  citations_from : ℕ → List (NodeWithScore Score) → List (Citation Score)
  citations_from i [] = []
  citations_from i (n ∷ nodes) = cite i n ∷ citations_from (i + 1) nodes

  unfoldable pub build_citations : List (NodeWithScore Score) → List (Citation Score)
  unfolding citations_from
  build_citations nodes = citations_from 1 nodes
