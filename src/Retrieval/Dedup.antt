-- ===== src/Retrieval/Dedup.antt =====
-- core/retrieval/dedup.py. The regular expression splits at each run of white space that follows a
-- full stop, an exclamation or a question mark; here one pass over the text does it. `lower` stands
-- for `str.lower`, which follows Unicode's tables.
pub mod Kept
pub mod Splitting
mod Tests
use Prim.Native.Char.{Char, code}
use enterprise_doc_rag.Common.{
  ℕ, String, Bool, true, false, ◌&&◌, ◌||◌, List, [], ◌∷◌, map, ◌==◌, string_eq, nat_eq,
  if◌then◌else◌, contains,
}
use enterprise_doc_rag.Common.Text.{is_space, is_blank, strip, join}
use enterprise_doc_rag.Retrieval.Filters.{NodeWithScore}

-- What stands before a place of the text.
pub data Before : Type 0 where
  other sentence_end gap : Before

abbrev pub ends_sentence : Char → Bool
ends_sentence c = code c == 46 || code c == 33 || code c == 63

abbrev pub is_splitting : Before → Char → Bool
is_splitting other c = false
is_splitting sentence_end c = is_space c
is_splitting gap c = is_space c

abbrev pub after : Before → Char → Before
after before c =
    if is_splitting before c then gap else if ends_sentence c then sentence_end else other

-- The text up to the first gap, and the pieces after it.
abbrev pub place : Before → Char → String × List String → String × List String
place other c (piece, pieces) = (String.◌∷◌ c piece, pieces)
place sentence_end c (piece, pieces) =
    if is_space c then ("", piece ∷ pieces) else (String.◌∷◌ c piece, pieces)
place gap c (piece, pieces) = if is_space c then (piece, pieces) else (String.◌∷◌ c piece, pieces)

abbrev pub split_from : Before → String → String × List String
split_from before String.[] = ("", [])
split_from before (String.◌∷◌ c text) = place before c (split_from (after before c) text)

-- `_SENTENCE_SPLIT_RE.split(text)`
unfoldable pub split : String → List String
split text = let (piece, pieces) = split_from other text in piece ∷ pieces

module _ (lower : String → String) where
  abbrev pub is_dropped : List String → String → Bool
  is_dropped seen stripped = is_blank stripped || contains seen (lower stripped)

  abbrev pub kept_from : List String → List String → List String
  kept_from seen [] = []
  kept_from seen (sentence ∷ sentences) =
      let dropped = is_dropped seen (strip sentence) in
      let rest = kept_from (if dropped then seen else lower (strip sentence) ∷ seen) sentences in
      if dropped then rest else strip sentence ∷ rest

  unfoldable pub kept_sentences : String → List String
  kept_sentences text = kept_from [] (split text)

  unfoldable pub dedupe_sentences : String → String
  unfolding kept_sentences
  dedupe_sentences text = join " " (kept_sentences text)

  abbrev pub set_content : {Score : Type 0} → NodeWithScore Score → NodeWithScore Score
  set_content n = record n { text = dedupe_sentences n.text }

  abbrev pub postprocess_nodes :
      {Score : Type 0} → List (NodeWithScore Score) → List (NodeWithScore Score)
  postprocess_nodes nodes = map set_content nodes
