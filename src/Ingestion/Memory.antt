-- ===== src/Ingestion/Memory.antt =====
-- Stores of the kind that ingestion assumes: the nodes in a list, each call a success. The parser
-- makes one chunk of each document.
use mathlib.Core.Path.{subst}
use enterprise_doc_rag.Common.{
  ℕ, String, ◌≡◌, refl, sym, inl, inr, Bool, true, false, not, Option, none, some, List, [], ◌++◌,
  arith, ◌==◌, nat_eq, select, Member, Member-append, Member-of_first, Member-of_second,
  Member-select, Member-of_select,
}
use enterprise_doc_rag.Common.Result.{Result, ok, err, external}
use enterprise_doc_rag.Retrieval.Collections.{Collections}
use enterprise_doc_rag.Ingestion.Stores.{Node, Docstore, VectorStore, Deletes, Adds}
use enterprise_doc_rag.Ingestion.Bm25Index.{Bm25}
use enterprise_doc_rag.Ingestion.Pipeline.{NodeParser}

abbrev Nodes : Type 0
Nodes = List (Node String)

abbrev pub others : ℕ → Nodes → Nodes
others i = select (λ n. not (n.metadata.document_id == i))

pub others-Deletes : (i : ℕ) (s : Nodes) (r : Result (Unit {0})) → Deletes i s (others i s) r
others-Deletes i s r = record {
  old = λ n m. (Member-select (λ x. not (x.metadata.document_id == i)) n s m).0;
  kept = λ n ne m.
      Member-of_select (λ x. not (x.metadata.document_id == i)) n s m (ground (arith, ne));
  gone = λ e n m.
      let other = (Member-select (λ x. not (x.metadata.document_id == i)) n s m).1 in
      (λ same. absurd (ground (arith, other, same)));
}

pub append-Adds : (ns s : Nodes) (r : Result (Unit {0})) → Adds ns s (ns ++ s) r
append-Adds ns s r = record {
  new = λ n m. elim (Member-append n ns s m) [ inl k ↦ inr k | inr k ↦ inl k ];
  kept = λ n m. Member-of_second n ns s m;
  added = λ e n m. Member-of_first n ns s m;
}

abbrev pub memory_docstore : Docstore String
memory_docstore = record {
  State = Nodes;
  nodes = λ s. s;
  delete_ref_doc = λ i s. (ok tt, others i s);
  add_documents = λ ns s. (ok tt, ns ++ s);
  delete_ref_doc-Deletes = λ i s. others-Deletes i s (ok tt);
  add_documents-Adds = λ ns s. append-Adds ns s (ok tt);
}

-- A collection that is missing, or its points.
abbrev pub stored_points : Option Nodes → Nodes
stored_points none = []
stored_points (some ns) = ns

abbrev pub exists : Option Nodes → Bool
exists none = false
exists (some ns) = true

abbrev pub memory_client : Collections (Node String)
memory_client = record {
  State = Option Nodes;
  collection_exists = exists;
  points = stored_points;
  create_collection = λ n s. some [];
  create_payload_index = λ field s. s;
  exists-create = λ n s. refl;
  points-create = λ n s h. refl;
  exists-index = λ field s. refl;
  points-index = λ field s. refl;
}

pub points-exist :
    (s : Option Nodes) (n : Node String) → Member n (stored_points s) → exists s ≡ true
points-exist none n m = elim m [ ]
points-exist (some ns) n m = refl

abbrev pub memory_store : VectorStore String
memory_store = record {
  client = memory_client;
  delete_points = λ i s. (ok tt, some (others i (stored_points s)));
  add = λ ns s. (ok tt, some (ns ++ stored_points s));
  missing-points = points-exist;
  delete_points-Deletes = λ i s. others-Deletes i (stored_points s) (ok tt);
  add-Adds = λ ns s. append-Adds ns (stored_points s) (ok tt);
}

abbrev pub one_chunk : NodeParser String
one_chunk = record {
  build_hierarchical_nodes = λ documents. ok (documents, documents);
  all-metadata = λ documents all leaf h n m.
      let same : documents ≡ all = cc h in (n, subst (Member n) (sym same) m, refl);
  leaf-all = λ documents all leaf h n m. let same : leaf ≡ all = cc h in subst (Member n) same m;
}

-- An index that is written whole, of a collection that raises if it is missing.
abbrev pub nodes_of : Option Nodes → Result Nodes
nodes_of none = err external
nodes_of (some ns) = ok ns

pub nodes_of-points :
    (s : Option Nodes) (nodes : Nodes) → nodes_of s ≡ ok nodes → nodes ≡ stored_points s
nodes_of-points none nodes h = absurd (cc h)
nodes_of-points (some ns) nodes h = cc h

abbrev pub memory_bm25 : Bm25 memory_store
memory_bm25 = record {
  get_nodes = nodes_of;
  make_index_dir = ok tt;
  from_defaults = λ nodes. ok tt;
  persist = λ nodes index. (ok tt, nodes);
  get_nodes-points = nodes_of-points;
  persist-nodes = λ nodes index after h. cc h;
}
