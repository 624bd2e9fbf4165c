-- ===== src/Ingestion/Pptx.antt =====
-- ingestion/loaders/pptx_loader.py, on the slides that python-pptx reads from the file.
pub mod Slides
mod Tests
use enterprise_doc_rag.Common.{
  ℕ, suc, String, Bool, true, false, ◌&&◌, Option, none, some, List, [], ◌∷◌, ◌++◌, ◌<>◌, ◌==◌,
  nat_eq, option_eq, if◌then◌else◌,
}
use enterprise_doc_rag.Common.Text.{is_blank, or_blank, or_none, truthy, strip, join, decimal}

-- `text` is none where the shape has no text frame.
pub record Shape : Type 0 where
  pub shape_id : ℕ
  pub text : Option String

-- `notes` is none where there is no notes slide.
pub record Slide : Type 0 where
  pub title : Option Shape
  pub shapes : List Shape
  pub notes : Option (Option String)

pub record SlideDocument : Type 0 where
  pub text : String
  pub slide_number : String
  pub section_title : Option String
  pub notes_text : String

abbrev pub title_of : Option Shape → Option String
title_of none = none
title_of (some shape) = or_none (strip (or_blank shape.text))

abbrev pub slide_title : Slide → Option String
slide_title slide = title_of slide.title

abbrev pub id_of : Option Shape → Option ℕ
id_of none = none
id_of (some shape) = some shape.shape_id

abbrev pub body_parts : Option ℕ → List Shape → List String
body_parts title_id [] = []
body_parts title_id (shape ∷ shapes) =
    let rest = body_parts title_id shapes in
    if some shape.shape_id == title_id
    then rest
    else if is_blank (strip (or_blank shape.text))
    then rest
    else strip (or_blank shape.text) ∷ rest

abbrev pub with_title : Option String → String → String
with_title none body = body
with_title (some title) body = strip (title <> ("\n" <> body))

abbrev pub slide_body_text : Slide → Option String → String
slide_body_text slide title =
    with_title (truthy title) (strip (join "\n" (body_parts (id_of slide.title) slide.shapes)))

abbrev pub notes_of : Option (Option String) → String
notes_of none = ""
notes_of (some text) = strip (or_blank text)

abbrev pub slide_document : ℕ → Slide → List SlideDocument
slide_document slide_num slide =
    let title = slide_title slide in
    let body_text = slide_body_text slide title in
    let notes_text = notes_of slide.notes in
    if is_blank body_text && is_blank notes_text
    then []
    else record {
      text = body_text;
      slide_number = decimal slide_num;
      section_title = title;
      notes_text = notes_text;
    }
      ∷ []

abbrev pub slides_from : ℕ → List Slide → List SlideDocument
slides_from slide_num [] = []
slides_from slide_num (slide ∷ slides) =
    slide_document slide_num slide ++ slides_from (suc slide_num) slides

unfoldable pub load_pptx : List Slide → List SlideDocument
load_pptx slides = slides_from 1 slides
