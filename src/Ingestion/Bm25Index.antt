-- ===== src/Ingestion/Bm25Index.antt =====
-- ingestion/bm25_index.py. The index on disk is the list of the nodes that it was built from. The
-- calls of the collection, the file system and the retriever may raise; a `persist` that raises
-- leaves any index.
use enterprise_doc_rag.Common.{ℕ, ◌≡◌, sym, ◌∙◌, List, [], ◌∷◌, length}
use enterprise_doc_rag.Common.Result.{Result, ok}
use enterprise_doc_rag.Common.Io.{Io, pure, lift, returned, continued, ran, ◌>>=◌}
use enterprise_doc_rag.Ingestion.Stores.{Node, VectorStore}

module _ {Content : Type 0} (store : VectorStore Content) where
  pub record Bm25 : Type 0 where
    pub get_nodes : store.client.State → Result (List (Node Content))
    pub make_index_dir : Result (Unit {0})
    pub from_defaults : List (Node Content) → Result (Unit {0})
    pub persist : List (Node Content) → Io (List (Node Content)) (Unit {0})
    pub get_nodes-points :
        (s : store.client.State) (nodes : List (Node Content))
        → get_nodes s ≡ ok nodes
        → nodes ≡ store.client.points s
    pub persist-nodes :
        (nodes index after : List (Node Content))
        → persist nodes index ≡ (ok tt, after)
        → after ≡ nodes

  module _ (bm25 : Bm25) where
    abbrev pub persisted : List (Node Content) → Io (List (Node Content)) ℕ
    persisted [] = pure 0
    persisted (node ∷ nodes) = do
      _ ← lift (bm25.from_defaults (node ∷ nodes))
      _ ← bm25.persist (node ∷ nodes)
      pure (length (node ∷ nodes))

    unfoldable pub rebuild_bm25_index : store.client.State → Io (List (Node Content)) ℕ
    rebuild_bm25_index s = do
      nodes ← lift (bm25.get_nodes s)
      _ ← lift bm25.make_index_dir
      persisted nodes

    -- The index after a rebuild that returned: that of before if the collection has no chunks, and
    -- else the chunks that it has.
    pub data IsRebuilt (s : store.client.State) (index after : List (Node Content)) : Type 0 where
      left : store.client.points s ≡ [] → after ≡ index → IsRebuilt s index after
      replaced : after ≡ store.client.points s → IsRebuilt s index after

    persisted-IsRebuilt :
        (s : store.client.State) (nodes index after : List (Node Content)) (n : ℕ)
        → nodes ≡ store.client.points s
        → persisted nodes index ≡ (ok n, after)
        → IsRebuilt s index after
    persisted-IsRebuilt s [] index after n same h =
        let (e, f) = returned 0 n index after h in left (sym same) (sym f)
    persisted-IsRebuilt s (node ∷ nodes) index after n same h =
        let (u, made, h1) = continued _ (bm25.from_defaults (node ∷ nodes)) index after n h in
        let (v, middle, wrote, h2) = ran (bm25.persist (node ∷ nodes)) _ index after n h1 in
        let (e, f) = returned (length (node ∷ nodes)) n middle after h2 in
        replaced (sym f ∙ (bm25.persist-nodes (node ∷ nodes) index middle wrote ∙ same))

    pub rebuild_bm25_index-IsRebuilt :
        (s : store.client.State) (index after : List (Node Content)) (n : ℕ)
        → rebuild_bm25_index s index ≡ (ok n, after)
        → IsRebuilt s index after
    unfolding rebuild_bm25_index
    rebuild_bm25_index-IsRebuilt s index after n h =
        let (nodes, got, h1) = continued _ (bm25.get_nodes s) index after n h in
        let (u, made, h2) = continued _ bm25.make_index_dir index after n h1 in
        persisted-IsRebuilt s nodes index after n (bm25.get_nodes-points s nodes got) h2
