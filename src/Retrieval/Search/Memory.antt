-- ===== src/Retrieval/Search/Memory.antt =====
-- A llama_index of the kind that the search assumes, over a list of nodes: the dense retriever
-- selects by the conditions, BM25 finds everything, and fusion takes what each retriever found.
use enterprise_doc_rag.Common.{
  ℕ, String, ◌≡◌, refl, inl, inr, List, [], ◌∷◌, ◌++◌, select, Member, Member-append, Member-select,
}
use enterprise_doc_rag.Common.Result.{Result, ok, ◌>>=◌, first_returned}
use enterprise_doc_rag.Retrieval.Filters.{NodeMetadata, NodeWithScore, admits}
use enterprise_doc_rag.Retrieval.Filters.Payloads.{payload_matching}
use enterprise_doc_rag.Retrieval.Search.{Llama, SameFile, IsFrom, FoundBy}

abbrev Node : Type 0
Node = NodeWithScore ℕ

abbrev fuse_all : List (String → Result (List Node)) → String → Result (List Node)
fuse_all [] query = ok []
fuse_all (r ∷ rs) query = do nodes ← r query; rest ← fuse_all rs query; ok (nodes ++ rest)

pub same : (m : NodeMetadata) → SameFile m m
same m = record { tenant_id = refl; department = refl; doc_type = refl; tags = refl }

pub fuse_all-found :
    (rs : List (String → Result (List Node))) (query : String) (nodes : List Node)
    → fuse_all rs query ≡ ok nodes
    → (x : Node) → Member x nodes
    → FoundBy rs x
fuse_all-found [] query nodes h x m =
    let none_left : nodes ≡ [] = cc h in let m' : Member x [] = rw none_left at m in absurd m'
fuse_all-found (r ∷ rs) query nodes h x m =
    let (here, h1, e) = first_returned _ (r query) h in
    let (rest, h2, f) = first_returned _ (fuse_all rs query) h1 in
    let all_of : nodes ≡ here ++ rest = cc h2 in
    let m' : Member x (here ++ rest) = rw all_of at m in
    elim (Member-append x here rest m') [
      | inl n ↦ (r, query, here, x, inl refl, e, n, same x.metadata)
      | inr n ↦
          let (s, q, ns, y, k, g, l, t) = fuse_all-found rs query rest f x n in
          (s, q, ns, y, inr k, g, l, t)
    ]

pub kept-IsFrom :
    (nodes result : List Node)
    → ◌≡◌ {A = Result (List Node)} (ok nodes) (ok result)
    → IsFrom nodes result
kept-IsFrom nodes result h x m = let e : result ≡ nodes = cc h in (x, rw e at m, same x.metadata)

abbrev pub memory_llama : List Node → Llama ℕ
memory_llama corpus = record {
  matching = payload_matching;
  dense_retrieve =
      λ k filters query. ok (select (λ n. admits payload_matching filters n.metadata) corpus);
  bm25_retrieve = λ k query. ok corpus;
  fuse = λ k n retrievers query. fuse_all retrievers query;
  auto_merge = λ retriever query. retriever query;
  rerank = λ query nodes. ok nodes;
  compress = λ query nodes. ok nodes;
  reorder = λ query nodes. ok nodes;
  dense-admits = λ k filters query nodes h x m.
      let e : nodes ≡ select (λ n. admits payload_matching filters n.metadata) corpus = cc h in
      (Member-select (λ n. admits payload_matching filters n.metadata) x corpus (rw e at m)).1;
  fuse-found = λ k n retrievers query nodes h. fuse_all-found retrievers query nodes h;
  auto_merge-IsFrom = λ retriever query nodes h. (nodes, h, λ x m. (x, m, same x.metadata));
  rerank-IsFrom = λ query nodes result h. kept-IsFrom nodes result h;
  compress-IsFrom = λ query nodes result h. kept-IsFrom nodes result h;
  reorder-IsFrom = λ query nodes result h. kept-IsFrom nodes result h;
}
