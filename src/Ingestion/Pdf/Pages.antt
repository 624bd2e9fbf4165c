-- ===== src/Ingestion/Pdf/Pages.antt =====
-- The documents of a PDF hold the text of its text blocks, whole and in order.
use text.Mathlib.TextLemmas.{nil-append, append-nil}
use enterprise_doc_rag.Common.{
  ℕ, suc, String, ◌<>◌, ◌≡◌, refl, sym, ap, ◌∙◌, inl, inr, Option, none, List, [], ◌∷◌, map,
  if◌then◌else◌, Bool-cases, nat_eq, option_eq,
}
use enterprise_doc_rag.Common.Text.{is_blank, strip, join, concat, squeeze}
use enterprise_doc_rag.Common.Ink.{
  eq_of_blank, squeeze-append, squeeze-strip, squeeze-join, concat-append,
}
use enterprise_doc_rag.Ingestion.Pdf.{
  Sizes, Span, Block, PageDocument, is_text_block, text_of, line_text, next_section, extract_block,
  extract_lines, page_document, load_pages, heading_threshold, load_pdf,
}

-- The texts of the spans, without white space.
abbrev pub spans_ink : {Size : Type 0} → List (Span Size) → String
spans_ink [] = ""
spans_ink (span ∷ spans) = squeeze span.text <> spans_ink spans

abbrev pub lines_ink : {Size : Type 0} → List (List (Span Size)) → String
lines_ink [] = ""
lines_ink (spans ∷ lines) = spans_ink spans <> lines_ink lines

abbrev pub blocks_ink : {Size : Type 0} → List (Block Size) → String
blocks_ink [] = ""
blocks_ink (block ∷ blocks) =
    if is_text_block block then lines_ink block.lines <> blocks_ink blocks else blocks_ink blocks

abbrev pub pages_ink : {Size : Type 0} → List (List (Block Size)) → String
pages_ink [] = ""
pages_ink (blocks ∷ pages) = blocks_ink blocks <> pages_ink pages

abbrev pub document_ink : PageDocument → String
document_ink d = squeeze d.text

module _ {Size : Type 0} where
  text_of-ink : (spans : List (Span Size)) → squeeze (text_of spans) ≡ spans_ink spans
  text_of-ink [] = refl
  text_of-ink (span ∷ spans) =
      squeeze-append span.text (text_of spans)
      ∙ ap (λ t. squeeze span.text <> t) (text_of-ink spans)

  line_text-ink : (spans : List (Span Size)) → squeeze (line_text spans) ≡ spans_ink spans
  line_text-ink spans = squeeze-strip (text_of spans) ∙ text_of-ink spans

  -- A blank line is left out, and has no ink.
  added-ink :
      (spans : List (Span Size)) (texts : List String)
      → concat (map squeeze (if is_blank (line_text spans) then texts else line_text spans ∷ texts))
        ≡ spans_ink spans <> concat (map squeeze texts)
  added-ink spans texts =
      let here = line_text-ink spans in
      elim (Bool-cases (is_blank (line_text spans))) [
        | inl blank ↦
            let empty : spans_ink spans ≡ "" =
              sym here ∙ ap squeeze (eq_of_blank (line_text spans) blank) in
            rw (blank, empty) (sym (nil-append (concat (map squeeze texts))))
        | inr text ↦ rw (text, here) refl
      ]

module _ (sizes : Sizes) (threshold : sizes.Size) where
  extract_block-ink :
      (lines : List (List (Span sizes.Size))) (section : Option String)
      → concat (map squeeze (extract_block sizes threshold lines section).0) ≡ lines_ink lines
  extract_block-ink [] section = refl
  extract_block-ink (spans ∷ lines) section =
      added-ink spans
        (extract_block sizes threshold lines (next_section sizes threshold section spans)).0
      ∙ ap (λ t. spans_ink spans <> t)
          (extract_block-ink lines (next_section sizes threshold section spans))

  extract_lines-ink :
      (blocks : List (Block sizes.Size)) (section : Option String)
      → concat (map squeeze (extract_lines sizes threshold blocks section).0) ≡ blocks_ink blocks
  extract_lines-ink [] section = refl
  extract_lines-ink (block ∷ blocks) section = elim (Bool-cases (is_text_block block)) [
    | inl texts ↦
        let (here, next) = extract_block sizes threshold block.lines section in
        rw texts (
          concat-append squeeze (extract_block sizes threshold block.lines section).0
            (extract_lines sizes threshold blocks next).0
          ∙ (ap (λ t. t <> concat (map squeeze (extract_lines sizes threshold blocks next).0))
                (extract_block-ink block.lines section)
              ∙ ap (λ t. lines_ink block.lines <> t) (extract_lines-ink blocks next)))
    | inr image ↦ rw image (extract_lines-ink blocks section)
  ]

  page_document-ink :
      (page_num : ℕ) (lines : List String) (section : Option String)
      → concat (map document_ink (page_document sizes threshold page_num lines section))
        ≡ concat (map squeeze lines)
  page_document-ink page_num lines section =
      let text = strip (join "\n" lines) in
      let e : squeeze text ≡ concat (map squeeze lines) =
        squeeze-strip (join "\n" lines) ∙ squeeze-join lines in
      elim (Bool-cases (is_blank text)) [
        | inl blank ↦ rw blank (ap squeeze (sym (eq_of_blank text blank)) ∙ e)
        | inr more ↦ rw more (append-nil (squeeze text) ∙ e)
      ]

  load_pages-ink :
      (page_num : ℕ) (pages : List (List (Block sizes.Size))) (section : Option String)
      → concat (map document_ink (load_pages sizes threshold page_num pages section))
        ≡ pages_ink pages
  load_pages-ink page_num [] section = refl
  load_pages-ink page_num (blocks ∷ pages) section =
      let (lines, next) = extract_lines sizes threshold blocks section in
      concat-append document_ink (page_document sizes threshold page_num lines next)
        (load_pages sizes threshold (suc page_num) pages next)
      ∙ (ap
            (λ t.
              t <> concat (map document_ink (load_pages sizes threshold (suc page_num) pages next)))
            (page_document-ink page_num lines next ∙ extract_lines-ink blocks section)
          ∙ ap (λ t. blocks_ink blocks <> t) (load_pages-ink (suc page_num) pages next))

-- The texts of the documents that the PDF loader makes are, but for white space, the texts of all
-- spans of the text blocks of all pages, whole and in order.
pub load_pdf_keeps :
    (sizes : Sizes) (pages : List (List (Block sizes.Size)))
    → concat (map document_ink (load_pdf sizes pages)) ≡ pages_ink pages
unfolding load_pdf
load_pdf_keeps sizes pages = load_pages-ink sizes (heading_threshold sizes pages) 1 pages none
