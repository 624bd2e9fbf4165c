-- ===== src/Ingestion/Docx.antt =====
-- ingestion/loaders/docx_loader.py, on the paragraphs that python-docx reads from the file.
pub mod Sections
mod Tests
use text.Mathlib.Text.{starts_with}
use enterprise_doc_rag.Common.{
  String, Bool, true, false, not, ◌&&◌, ◌||◌, Option, none, some, List, [], ◌∷◌, ◌++◌, ◌==◌,
  string_eq, if◌then◌else◌,
}
use enterprise_doc_rag.Common.Text.{is_blank, or_blank, strip, join}

-- `style_name` is none where the paragraph has no style.
pub record Paragraph : Type 0 where
  pub text : String
  pub style_name : Option String

-- A llama_index document with the metadata of a section.
pub record Section : Type 0 where
  pub text : String
  pub section_title : Option String

abbrev pub is_heading : Paragraph → Bool
is_heading p = starts_with (or_blank p.style_name) "Heading" || or_blank p.style_name == "Title"

-- `flush`: the document that it appends, if any.
abbrev pub flush : Option String → List String → List Section
flush current_title current_lines =
    let text = strip (join "\n" current_lines) in
    if is_blank text then [] else record { text = text; section_title = current_title } ∷ []

-- A paragraph that starts a section.
abbrev pub starts_section : Paragraph → Bool
starts_section p = not (is_blank (strip p.text)) && is_heading p

abbrev pub next_title : Option String → Paragraph → Option String
next_title current_title p = if starts_section p then some (strip p.text) else current_title

abbrev pub next_lines : List String → Paragraph → List String
next_lines current_lines p =
    if is_blank (strip p.text)
    then current_lines
    else if is_heading p
    then []
    else current_lines ++ (strip p.text ∷ [])

abbrev pub sections_from : Option String → List String → List Paragraph → List Section
sections_from current_title current_lines [] = flush current_title current_lines
sections_from current_title current_lines (p ∷ paragraphs) =
    let rest = sections_from (next_title current_title p) (next_lines current_lines p) paragraphs in
    if starts_section p then flush current_title current_lines ++ rest else rest

unfoldable pub load_docx : List Paragraph → List Section
load_docx paragraphs = sections_from none [] paragraphs
