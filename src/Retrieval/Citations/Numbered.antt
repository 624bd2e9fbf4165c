-- ===== src/Retrieval/Citations/Numbered.antt =====
-- The citations are numbered as the chat prompt refers to them.
use enterprise_doc_rag.Common.{
  ℕ, zero, suc, ◌+◌, ◌≡◌, refl, some, List, [], ◌∷◌, arith, get_elem?, length, inl, inr, Member,
}
use enterprise_doc_rag.Retrieval.Filters.{NodeWithScore}
use enterprise_doc_rag.Retrieval.Citations.{Citation, citations_from, build_citations}

module _ {Score : Type 0} where
  -- The citation `c` has the number, and the text, the score and the source of the node.
  pub record Cites (number : ℕ) (n : NodeWithScore Score) (c : Citation Score) : Type 0 where
    pub index : c.index ≡ number
    pub text : c.text ≡ n.text
    pub score : c.score ≡ n.score
    pub source_file : c.source_file ≡ n.metadata.source_file
    pub document_id : c.document_id ≡ n.metadata.document_id
    pub page_label : c.page_label ≡ n.metadata.page_label
    pub section_title : c.section_title ≡ n.metadata.section_title
    pub slide_number : c.slide_number ≡ n.metadata.slide_number

  length-citations_from :
      (i : ℕ) (nodes : List (NodeWithScore Score)) → length (citations_from i nodes) ≡ length nodes
  unfolding citations_from
  length-citations_from i [] = refl
  length-citations_from i (n ∷ nodes) = rw (length-citations_from (i + 1) nodes) refl

  nth-Cites :
      (i k : ℕ) (nodes : List (NodeWithScore Score)) (n : NodeWithScore Score)
      → get_elem? nodes k ≡ some n
      → (c : Citation Score) × (get_elem? (citations_from i nodes) k ≡ some c) × Cites (i + k) n c
  unfolding citations_from
  nth-Cites i k [] n h = absurd (cc h)
  nth-Cites i zero (x ∷ nodes) n h =
      let same : x ≡ n = cc h in
      (
        _,
        refl,
        rw same (record {
          index = omega arith;
          text = refl;
          score = refl;
          source_file = refl;
          document_id = refl;
          page_label = refl;
          section_title = refl;
          slide_number = refl;
        }),
      )
  nth-Cites i (suc k) (x ∷ nodes) n h =
      let e : i + suc k ≡ i + 1 + k = omega arith in rw e (nth-Cites (i + 1) k nodes n h)

  -- There are as many citations as nodes. The node at a place, counted from 0, has the citation at
  -- the same place, with the number that is one larger and the text, the score and the source of the
  -- node.
  pub build_citations_lem :
      (nodes : List (NodeWithScore Score)) (k : ℕ) (n : NodeWithScore Score)
      → get_elem? nodes k ≡ some n
      → (length (build_citations nodes) ≡ length nodes)
        × (c : Citation Score) × (get_elem? (build_citations nodes) k ≡ some c)
        × Cites (1 + k) n c
  unfolding build_citations
  build_citations_lem nodes k n h =
      let (c, e, cites) = nth-Cites 1 k nodes n h in (length-citations_from 1 nodes, c, e, cites)

  node_at :
      (i k : ℕ) (nodes : List (NodeWithScore Score)) (c : Citation Score)
      → get_elem? (citations_from i nodes) k ≡ some c
      → (n : NodeWithScore Score) × (get_elem? nodes k ≡ some n) × Member n nodes
  unfolding citations_from
  node_at i k [] c h = absurd (cc h)
  node_at i zero (x ∷ nodes) c h = (x, refl, inl refl)
  node_at i (suc k) (x ∷ nodes) c h = let (n, e, m) = node_at (i + 1) k nodes c h in (n, e, inr m)

  -- The node of a citation stands at the same place.
  pub build_citations-cited :
      (nodes : List (NodeWithScore Score)) (k : ℕ) (c : Citation Score)
      → get_elem? (build_citations nodes) k ≡ some c
      → (n : NodeWithScore Score) × (get_elem? nodes k ≡ some n)
        × Member n nodes
        × Cites (1 + k) n c
  unfolding build_citations
  build_citations-cited nodes k c h =
      let (n, e, m) = node_at 1 k nodes c h in
      let (x, f, cites) = nth-Cites 1 k nodes n e in
      let same : x ≡ c = cc (h, f) in (n, e, m, rw same at cites)
