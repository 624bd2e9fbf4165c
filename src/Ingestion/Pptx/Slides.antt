-- ===== src/Ingestion/Pptx/Slides.antt =====
-- The documents of a presentation hold the text of its titles and other shapes, whole and in order.
use text.Mathlib.TextLemmas.{nil-append, append-nil}
use enterprise_doc_rag.Common.{
  ℕ, suc, String, ◌<>◌, ◌≡◌, refl, sym, ap, ◌∙◌, inl, inr, true, ◌&&◌, Option, none, some, List, [],
  ◌∷◌, map, arith, if◌then◌else◌, Bool-cases, nat_eq, option_eq, ◌==◌,
}
use enterprise_doc_rag.Common.Text.{
  is_blank, is_space, or_blank, truthy, strip, join, concat, squeeze,
}
use enterprise_doc_rag.Common.Ink.{
  eq_of_blank, squeeze-append, squeeze-strip, squeeze-join, concat-append,
}
use enterprise_doc_rag.Ingestion.Pptx.{
  Shape, Slide, SlideDocument, title_of, slide_title, id_of, body_parts, with_title,
  slide_body_text, notes_of, slide_document, slides_from, load_pptx,
}

abbrev pub title_ink : Option Shape → String
title_ink none = ""
title_ink (some shape) = squeeze (or_blank shape.text)

-- The texts of the shapes other than the title, without white space.
abbrev pub shapes_ink : Option ℕ → List Shape → String
shapes_ink title_id [] = ""
shapes_ink title_id (shape ∷ shapes) =
    if some shape.shape_id == title_id
    then shapes_ink title_id shapes
    else squeeze (or_blank shape.text) <> shapes_ink title_id shapes

abbrev pub slides_ink : List Slide → String
slides_ink [] = ""
slides_ink (slide ∷ slides) =
    (title_ink slide.title <> shapes_ink (id_of slide.title) slide.shapes) <> slides_ink slides

abbrev pub document_ink : SlideDocument → String
document_ink d = squeeze d.text

body_parts-ink :
    (title_id : Option ℕ) (shapes : List Shape)
    → concat (map squeeze (body_parts title_id shapes)) ≡ shapes_ink title_id shapes
body_parts-ink title_id [] = refl
body_parts-ink title_id (shape ∷ shapes) =
    let rest = body_parts-ink title_id shapes in
    let text = or_blank shape.text in
    elim (Bool-cases (some shape.shape_id == title_id)) [
      | inl title ↦ rw title rest
      | inr other ↦ elim (Bool-cases (is_blank (strip text))) [
        | inl blank ↦
            let empty : squeeze text ≡ "" =
              sym (squeeze-strip text) ∙ ap squeeze (eq_of_blank (strip text) blank) in
            rw (other, blank, empty) (rest ∙ sym (nil-append (shapes_ink title_id shapes)))
        | inr more ↦ rw (other, more, squeeze-strip text, rest) refl
      ]
    ]

title_of-ink :
    (title : Option Shape) → squeeze (or_blank (truthy (title_of title))) ≡ title_ink title
title_of-ink none = refl
title_of-ink (some shape) =
    let text = strip (or_blank shape.text) in
    let e = squeeze-strip (or_blank shape.text) in
    elim (Bool-cases (is_blank text)) [
      | inl blank ↦ rw blank (sym (ap squeeze (eq_of_blank text blank)) ∙ e)
      | inr more ↦ rw (more, more) e
    ]

with_title-ink :
    (title : Option String) (body : String)
    → squeeze (with_title title body) ≡ squeeze (or_blank title) <> squeeze body
unfolding is_space nat_eq
with_title-ink none body = sym (nil-append (squeeze body))
with_title-ink (some title) body =
    squeeze-strip (title <> ("\n" <> body))
    ∙ (squeeze-append title ("\n" <> body)
        ∙ ap (λ t. squeeze title <> t) (squeeze-append "\n" body ∙ nil-append (squeeze body)))

slide_body_text-ink :
    (slide : Slide)
    → squeeze (slide_body_text slide (slide_title slide))
      ≡ title_ink slide.title <> shapes_ink (id_of slide.title) slide.shapes
slide_body_text-ink slide =
    let parts = body_parts (id_of slide.title) slide.shapes in
    let body : squeeze (strip (join "\n" parts)) ≡ shapes_ink (id_of slide.title) slide.shapes =
      squeeze-strip (join "\n" parts)
      ∙ (squeeze-join parts ∙ body_parts-ink (id_of slide.title) slide.shapes) in
    with_title-ink (truthy (title_of slide.title)) (strip (join "\n" parts))
    ∙ (ap (λ t. t <> squeeze (strip (join "\n" parts))) (title_of-ink slide.title)
        ∙ ap (λ t. title_ink slide.title <> t) body)

slide_document-ink :
    (slide_num : ℕ) (slide : Slide)
    → concat (map document_ink (slide_document slide_num slide))
      ≡ title_ink slide.title <> shapes_ink (id_of slide.title) slide.shapes
slide_document-ink slide_num slide =
    let text = slide_body_text slide (slide_title slide) in
    elim (Bool-cases (is_blank text && is_blank (notes_of slide.notes))) [
      | inl skipped ↦
          let blank : is_blank text ≡ true = ground (arith, skipped) in
          rw skipped (sym (ap squeeze (eq_of_blank text blank)) ∙ slide_body_text-ink slide)
      | inr kept ↦ rw kept (append-nil (squeeze text) ∙ slide_body_text-ink slide)
    ]

slides_from-ink :
    (slide_num : ℕ) (slides : List Slide)
    → concat (map document_ink (slides_from slide_num slides)) ≡ slides_ink slides
slides_from-ink slide_num [] = refl
slides_from-ink slide_num (slide ∷ slides) =
    concat-append document_ink (slide_document slide_num slide) (slides_from (suc slide_num) slides)
    ∙ (ap (λ t. t <> concat (map document_ink (slides_from (suc slide_num) slides)))
          (slide_document-ink slide_num slide)
        ∙ ap (λ t. (title_ink slide.title <> shapes_ink (id_of slide.title) slide.shapes) <> t)
            (slides_from-ink (suc slide_num) slides))

-- The texts of the documents that the PowerPoint loader makes are, but for white space, for each
-- slide the text of its title and then the texts of its other shapes, whole and in order.
pub load_pptx_keeps :
    (slides : List Slide) → concat (map document_ink (load_pptx slides)) ≡ slides_ink slides
unfolding load_pptx
load_pptx_keeps slides = slides_from-ink 1 slides
