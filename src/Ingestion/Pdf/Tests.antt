-- ===== src/Ingestion/Pdf/Tests.antt =====
-- A PDF of two pages, the second with an image, and the theorem at it.
use enterprise_doc_rag.Common.{
  ℕ, ◌≡◌, refl, some, List, [], ◌∷◌, map, leb, nat_eq, option_eq, ◌*◌, ◌/◌,
}
use enterprise_doc_rag.Common.Text.{is_space, concat}
use enterprise_doc_rag.Ingestion.Pdf.{Sizes, Block, load_pdf}
use enterprise_doc_rag.Ingestion.Pdf.Pages.{document_ink, pages_ink, load_pdf_keeps}

-- Whole numbers of tenths of a point, with the first size in place of the median.
abbrev first : List ℕ → ℕ
first [] = 0
first (size ∷ rest) = size

abbrev tenths : Sizes
tenths = record {
  Size = ℕ;
  at_least = λ size threshold. leb threshold size;
  median = first;
  ten_points = 100;
  times_heading_ratio = λ size. size * 115 / 100;
}

abbrev pages : List (List (Block ℕ))
pages =
    (record {
      block_type = some 0;
      lines =
          (record { text = "Staff are "; size = 100 } ∷ record { text = "paid."; size = 100 } ∷ [])
          ∷ (record { text = "Leave"; size = 140 } ∷ [])
          ∷ [];
    }
      ∷ [])
    ∷ (record { block_type = some 1; lines = [] }
        ∷ record {
          block_type = some 0;
          lines = (record { text = " 25 days "; size = 100 } ∷ []) ∷ [];
        }
        ∷ [])
    ∷ []

loaded :
    load_pdf tenths pages
    ≡ record { text = "Staff are paid.\nLeave"; page_label = "1"; section_title = some "Leave" }
      ∷ record { text = "25 days"; page_label = "2"; section_title = some "Leave" }
      ∷ []
unfolding load_pdf is_space nat_eq option_eq
loaded = refl

load_pdf_keeps_example : concat (map document_ink (load_pdf tenths pages)) ≡ pages_ink pages
load_pdf_keeps_example = load_pdf_keeps tenths pages
