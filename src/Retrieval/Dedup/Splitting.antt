-- ===== src/Retrieval/Dedup/Splitting.antt =====
-- Splitting a text loses white space only.
use Prim.Native.Char.{Char}
use text.Mathlib.TextLemmas.{nil-append, cons-append}
use enterprise_doc_rag.Common.{
  String, ◌<>◌, ◌≡◌, refl, ◌∙◌, inl, inr, List, map, if◌then◌else◌, Bool-cases,
}
use enterprise_doc_rag.Common.Text.{is_space, concat, squeeze}
use enterprise_doc_rag.Retrieval.Dedup.{
  Before, other, sentence_end, gap, after, place, split_from, split,
}

squeezed : String × List String → String
squeezed pieces = squeeze pieces.0 <> concat (map squeeze pieces.1)

squeezed-place :
    (before : Before) (c : Char) (pieces : String × List String)
    → squeezed (place before c pieces)
      ≡ (if is_space c then squeezed pieces else String.◌∷◌ c (squeezed pieces))
unfolding squeezed
squeezed-place other c pieces = elim (Bool-cases (is_space c)) [
  | inl space ↦ rw space refl
  | inr ink ↦ rw (ink, cons-append c (squeeze pieces.0) (concat (map squeeze pieces.1))) refl
]
squeezed-place sentence_end c pieces = elim (Bool-cases (is_space c)) [
  | inl space ↦ rw (space, nil-append (squeeze pieces.0 <> concat (map squeeze pieces.1))) refl
  | inr ink ↦ rw (ink, ink, cons-append c (squeeze pieces.0) (concat (map squeeze pieces.1))) refl
]
squeezed-place gap c pieces = elim (Bool-cases (is_space c)) [
  | inl space ↦ rw space refl
  | inr ink ↦ rw (ink, ink, cons-append c (squeeze pieces.0) (concat (map squeeze pieces.1))) refl
]

squeezed-split_from :
    (before : Before) (text : String) → squeezed (split_from before text) ≡ squeeze text
unfolding squeezed
squeezed-split_from before String.[] = refl
squeezed-split_from before (String.◌∷◌ c text) =
    squeezed-place before c (split_from (after before c) text)
    ∙ (rw (squeezed-split_from (after before c) text) refl)

-- The pieces of a text, without their white space, make up the text without its white space, in the
-- same order.
pub split_keeps : (text : String) → concat (map squeeze (split text)) ≡ squeeze text
unfolding split squeezed
split_keeps text = squeezed-split_from other text
