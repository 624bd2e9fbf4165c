-- ===== src/Retrieval/Dedup/Tests.antt =====
-- A text with a repeated sentence.
use enterprise_doc_rag.Common.{
  String, ◌≡◌, ◌≤◌, refl, false, true, [], ◌∷◌, map, contains, count_by, string_eq, nat_eq, Member,
}
use enterprise_doc_rag.Common.Text.{is_space, is_blank, strip}
use enterprise_doc_rag.Retrieval.Dedup.{split, kept_sentences, dedupe_sentences}
use enterprise_doc_rag.Retrieval.Dedup.Kept.{has_lower, kept_sentences_lem}

abbrev lower : String → String
lower text = text

dedupe_run : dedupe_sentences lower "A b.  Is it? A b. 3.14" ≡ "A b. Is it? 3.14"
unfolding dedupe_sentences split string_eq nat_eq is_space
dedupe_run = refl

split_run : split "A b.  Is it? " ≡ "A b." ∷ "Is it?" ∷ "" ∷ []
unfolding split nat_eq is_space
split_run = refl

kept_sentences_lem_example :
    ((k : String) → count_by (has_lower lower k) (kept_sentences lower "A b.  Is it? A b.") ≤ 1)
    × ((p : String)
        → Member p (split "A b.  Is it? A b.")
        → is_blank (strip p) ≡ false
        → contains (map lower (kept_sentences lower "A b.  Is it? A b.")) (lower (strip p)) ≡ true)
    × ((s : String)
        → Member s (kept_sentences lower "A b.  Is it? A b.")
        → (p : String) × Member p (split "A b.  Is it? A b.")
          × (s ≡ strip p)
          × (is_blank s ≡ false))
kept_sentences_lem_example = kept_sentences_lem lower "A b.  Is it? A b."
