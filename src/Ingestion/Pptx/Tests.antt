-- ===== src/Ingestion/Pptx/Tests.antt =====
-- A presentation of two slides, the second empty, and the theorem at it.
use enterprise_doc_rag.Common.{◌≡◌, refl, none, some, List, [], ◌∷◌, map, nat_eq, option_eq}
use enterprise_doc_rag.Common.Text.{is_space, concat}
use enterprise_doc_rag.Ingestion.Pptx.{Slide, load_pptx}
use enterprise_doc_rag.Ingestion.Pptx.Slides.{document_ink, slides_ink, load_pptx_keeps}

abbrev slides : List Slide
slides =
    record {
      title = some (record { shape_id = 2; text = some " Plan " });
      shapes =
          record { shape_id = 2; text = some " Plan " }
          ∷ record { shape_id = 3; text = none }
          ∷ record { shape_id = 4; text = some "Ship in May" }
          ∷ [];
      notes = some (some "Ask Kim");
    }
    ∷ record { title = none; shapes = []; notes = some none }
    ∷ []

loaded :
    load_pptx slides
    ≡ record {
      text = "Plan\nShip in May";
      slide_number = "1";
      section_title = some "Plan";
      notes_text = "Ask Kim";
    }
      ∷ []
unfolding load_pptx is_space nat_eq option_eq
loaded = refl

load_pptx_keeps_example : concat (map document_ink (load_pptx slides)) ≡ slides_ink slides
load_pptx_keeps_example = load_pptx_keeps slides
