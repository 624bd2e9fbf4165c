-- ===== src/Ingestion/Docx/Sections.antt =====
-- The sections of a document hold its body text, whole and in order, under its headings.
use text.Mathlib.TextLemmas.{nil-append, append-nil, append_assoc}
use enterprise_doc_rag.Common.{
  String, ◌<>◌, ◌≡◌, refl, sym, ap, ◌∙◌, inl, inr, true, false, Option, none, some, List, [], ◌∷◌,
  map, arith, if◌then◌else◌, Bool-cases,
}
use enterprise_doc_rag.Common.Text.{is_blank, strip, join, concat, squeeze}
use enterprise_doc_rag.Common.Ink.{concat-append, eq_of_blank, squeeze-strip, squeeze-join}
use enterprise_doc_rag.Ingestion.Docx.{
  Paragraph, Section, is_heading, flush, starts_section, next_lines, sections_from, load_docx,
}

-- The text of the paragraphs that are no headings, without white space.
abbrev pub body : List Paragraph → String
body [] = ""
body (p ∷ paragraphs) =
    if starts_section p then body paragraphs else squeeze p.text <> body paragraphs

abbrev pub ink : Section → String
ink s = squeeze s.text

abbrev lines_ink : List String → String
lines_ink lines = concat (map squeeze lines)

flush_keeps :
    (title : Option String) (lines : List String)
    → concat (map ink (flush title lines)) ≡ lines_ink lines
flush_keeps title lines =
    let e : squeeze (strip (join "\n" lines)) ≡ lines_ink lines =
      squeeze-strip (join "\n" lines) ∙ squeeze-join lines in
    elim (Bool-cases (is_blank (strip (join "\n" lines)))) [
      | inl blank ↦ rw blank (ap squeeze (sym (eq_of_blank (strip (join "\n" lines)) blank)) ∙ e)
      | inr text ↦ rw text (append-nil (squeeze (strip (join "\n" lines))) ∙ e)
    ]

blank_text : (p : Paragraph) → is_blank (strip p.text) ≡ true → squeeze p.text ≡ ""
blank_text p h = sym (squeeze-strip p.text) ∙ ap squeeze (eq_of_blank (strip p.text) h)

next_lines-ink :
    (lines : List String) (p : Paragraph)
    → starts_section p ≡ false
    → lines_ink (next_lines lines p) ≡ lines_ink lines <> squeeze p.text
next_lines-ink lines p h = elim (Bool-cases (is_blank (strip p.text))) [
  | inl blank ↦ rw (blank, blank_text p blank) (sym (append-nil (lines_ink lines)))
  | inr text ↦
      let plain : is_heading p ≡ false = ground (arith, text, h) in
      rw (text, plain)
        (concat-append squeeze lines (strip p.text ∷ [])
          ∙ ap (λ t. lines_ink lines <> t)
              (append-nil (squeeze (strip p.text)) ∙ squeeze-strip p.text))
]

next_lines-start :
    (lines : List String) (p : Paragraph) → starts_section p ≡ true → next_lines lines p ≡ []
next_lines-start lines p h =
    let text : is_blank (strip p.text) ≡ false = ground arith in
    let heading : is_heading p ≡ true = ground arith in rw (text, heading) refl

sections_keep :
    (title : Option String) (lines : List String) (paragraphs : List Paragraph)
    → concat (map ink (sections_from title lines paragraphs)) ≡ lines_ink lines <> body paragraphs
sections_keep title lines [] = flush_keeps title lines ∙ sym (append-nil (lines_ink lines))
sections_keep title lines (p ∷ ps) = elim (Bool-cases (starts_section p)) [
  | inl start ↦
      rw (start, next_lines-start lines p start)
        (concat-append ink (flush title lines) (sections_from (some (strip p.text)) [] ps)
          ∙ (rw
              (
                flush_keeps title lines,
                sections_keep (some (strip p.text)) [] ps,
                nil-append (body ps),
              )
              refl))
  | inr plain ↦ rw plain (
      sections_keep title (next_lines lines p) ps
      ∙ (ap (λ t. t <> body ps) (next_lines-ink lines p plain)
          ∙ append_assoc (lines_ink lines) (squeeze p.text) (body ps)))
]

-- The texts of the sections, without white space, are the texts of the paragraphs that are no
-- headings, whole and in order.
pub load_docx_keeps :
    (paragraphs : List Paragraph) → concat (map ink (load_docx paragraphs)) ≡ body paragraphs
unfolding load_docx
load_docx_keeps paragraphs = sections_keep none [] paragraphs ∙ nil-append (body paragraphs)
