-- ===== src/Ingestion/Docx/Tests.antt =====
-- A document with a title, two headings and an empty paragraph.
use enterprise_doc_rag.Common.{String, ◌≡◌, refl, none, some, List, [], ◌∷◌, map, string_eq, nat_eq}
use enterprise_doc_rag.Common.Text.{is_space, concat}
use enterprise_doc_rag.Ingestion.Docx.{Paragraph, load_docx}
use enterprise_doc_rag.Ingestion.Docx.Sections.{body, ink, load_docx_keeps}

abbrev heading : String → Paragraph
heading text = record { text = text; style_name = some "Heading 1" }

abbrev plain : String → Paragraph
plain text = record { text = text; style_name = none }

abbrev paragraphs : List Paragraph
paragraphs =
    plain "Preface. "
    ∷ heading "Leave"
    ∷ plain "25 days."
    ∷ plain " "
    ∷ plain "Ask."
    ∷ heading "Empty"
    ∷ []

-- A heading without a body leaves no section.
load_run :
    load_docx paragraphs
    ≡ record { text = "Preface."; section_title = none }
      ∷ record { text = "25 days.\nAsk."; section_title = some "Leave" }
      ∷ []
unfolding load_docx is_space string_eq nat_eq
load_run = refl

load_docx_keeps_example : concat (map ink (load_docx paragraphs)) ≡ body paragraphs
load_docx_keeps_example = load_docx_keeps paragraphs
