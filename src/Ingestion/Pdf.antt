-- ===== src/Ingestion/Pdf.antt =====
-- ingestion/loaders/pdf_loader.py, on the blocks that PyMuPDF reads from each page. Font sizes are
-- floats: they are opaque, with the operations of the code on them as a parameter.
pub mod Pages
mod Tests
use Prim.Native.Char.{Char}
use enterprise_doc_rag.Common.{
  ℕ, zero, suc, ◌+◌, String, Bool, true, false, not, ◌&&◌, Option, none, some, List, [], ◌∷◌, ◌++◌,
  ◌==◌, nat_eq, option_eq, if◌then◌else◌, ltb, any, map, ◌<>◌,
}
use enterprise_doc_rag.Common.Text.{is_blank, strip, join, concat, decimal}

pub record Sizes : Type 1 where
  pub Size : Type 0
  pub at_least : Size → Size → Bool
  -- `statistics.median`, of a list that is not empty.
  pub median : List Size → Size
  pub ten_points : Size
  pub times_heading_ratio : Size → Size

pub record Span (Size : Type 0) : Type 0 where
  pub text : String
  pub size : Size

-- `block_type` and `lines` are what `block.get` returns.
pub record Block (Size : Type 0) : Type 0 where
  pub block_type : Option ℕ
  pub lines : List (List (Span Size))

pub record PageDocument : Type 0 where
  pub text : String
  pub page_label : String
  pub section_title : Option String

abbrev pub heading_max_chars : ℕ
heading_max_chars = 150

-- `len(text)`
abbrev pub len : String → ℕ
len String.[] = 0
len (String.◌∷◌ c text) = suc (len text)

abbrev pub is_text_block : {Size : Type 0} → Block Size → Bool
is_text_block block = block.block_type == some 0

abbrev pub text_of : {Size : Type 0} → List (Span Size) → String
text_of [] = ""
text_of (span ∷ spans) = span.text <> text_of spans

abbrev pub line_text : {Size : Type 0} → List (Span Size) → String
line_text spans = strip (text_of spans)

module _ {Size : Type 0} where
  -- The comprehension over the spans of the text blocks.
  abbrev pub span_sizes : List (Span Size) → List Size
  span_sizes [] = []
  span_sizes (span ∷ spans) =
      let rest = span_sizes spans in if is_blank (strip span.text) then rest else span.size ∷ rest

  abbrev pub line_sizes : List (List (Span Size)) → List Size
  line_sizes [] = []
  line_sizes (line ∷ lines) = span_sizes line ++ line_sizes lines

  abbrev pub block_sizes : List (Block Size) → List Size
  block_sizes [] = []
  block_sizes (block ∷ blocks) =
      let rest = block_sizes blocks in
      if is_text_block block then line_sizes block.lines ++ rest else rest

  abbrev pub page_sizes : List (List (Block Size)) → List Size
  page_sizes [] = []
  page_sizes (blocks ∷ pages) = block_sizes blocks ++ page_sizes pages

module _ (sizes : Sizes) where
  abbrev pub body_size : List sizes.Size → sizes.Size
  body_size [] = sizes.ten_points
  body_size (size ∷ rest) = sizes.median (size ∷ rest)

  abbrev pub heading_threshold : List (List (Block sizes.Size)) → sizes.Size
  heading_threshold pages_raw = sizes.times_heading_ratio (body_size (page_sizes pages_raw))

  module _ (threshold : sizes.Size) where
    -- The largest span of a line that is not blank reaches the threshold if any does.
    abbrev pub is_heading_line : List (Span sizes.Size) → Bool
    is_heading_line spans =
        any (λ span. sizes.at_least span.size threshold) spans
        && ltb (len (line_text spans)) heading_max_chars

    abbrev pub next_section : Option String → List (Span sizes.Size) → Option String
    next_section current_section spans =
        if is_blank (line_text spans)
        then current_section
        else if is_heading_line spans
        then some (line_text spans)
        else current_section

    -- The lines of one block.
    abbrev pub extract_block :
        List (List (Span sizes.Size)) → Option String → List String × Option String
    extract_block [] current_section = ([], current_section)
    extract_block (spans ∷ lines) current_section =
        let (texts, last) = extract_block lines (next_section current_section spans) in
        (if is_blank (line_text spans) then texts else line_text spans ∷ texts, last)

    abbrev pub extract_lines : List (Block sizes.Size) → Option String → List String × Option String
    extract_lines [] current_section = ([], current_section)
    extract_lines (block ∷ blocks) current_section =
        if not (is_text_block block)
        then extract_lines blocks current_section
        else (let (texts, section) = extract_block block.lines current_section in
            let (more, last) = extract_lines blocks section in (texts ++ more, last))

    abbrev pub page_document : ℕ → List String → Option String → List PageDocument
    page_document page_num lines_text current_section =
        let text = strip (join "\n" lines_text) in
        if is_blank text
        then []
        else record { text = text; page_label = decimal page_num; section_title = current_section }
          ∷ []

    abbrev pub load_pages : ℕ → List (List (Block sizes.Size)) → Option String → List PageDocument
    load_pages page_num [] current_section = []
    load_pages page_num (blocks ∷ pages) current_section =
        let (lines_text, section) = extract_lines blocks current_section in
        page_document page_num lines_text section ++ load_pages (suc page_num) pages section

  unfoldable pub load_pdf : List (List (Block sizes.Size)) → List PageDocument
  load_pdf pages_raw = load_pages (heading_threshold pages_raw) 1 pages_raw none
