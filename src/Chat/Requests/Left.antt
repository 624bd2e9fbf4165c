-- ===== src/Chat/Requests/Left.antt =====
-- What an answer that raises leaves in the cache.
use mathlib.Core.Path.{subst}
use enterprise_doc_rag.Common.{
  sym, ap, ◌⊎◌, Bool, not, if◌then◌else◌, ℕ, String, ◌≡◌, refl, inl, inr, Option, none, some, List,
  false, Bool-cases,
}
use enterprise_doc_rag.Common.Result.{Result, Error, ok, err}
use enterprise_doc_rag.Config.{Settings}
use enterprise_doc_rag.Retrieval.Filters.{NodeWithScore, SearchFilters}
use enterprise_doc_rag.Retrieval.Citations.{Citation}
use enterprise_doc_rag.Retrieval.Collections.{ensure_collection}
use enterprise_doc_rag.Retrieval.Search.{Llama}
use enterprise_doc_rag.Cache.{
  Qdrant, CacheEntry, StoreCall, StoreFault, in_collection, in_indexes, in_upsert, after_upsert,
  new_point, collections_of, try_store, stored, store,
}
use enterprise_doc_rag.Conversations.{Tables, load_history}
use enterprise_doc_rag.Chat.{
  Llm, Event, Faults, Times, ChatState, consume, answer_call, after_store, finish, answer_from,
  answer_fresh, answer_cached, answer_with, answer_asked, stream_chat_response, messages_for,
}

module _ {Score Vector : Type 0} (settings : Settings) (get_query_embedding : String → Vector)
    (qdrant : Qdrant Score Vector) (embedding_dimension : ℕ) where
  -- Without an exception it is `store`.
  try_store-store :
      (c : StoreCall Score) (s : qdrant.State)
      → try_store settings get_query_embedding qdrant none embedding_dimension c s
        ≡ (ok tt, store settings get_query_embedding qdrant embedding_dimension c s)
  unfolding try_store store
  try_store-store c s = elim (Bool-cases settings.semantic_cache_enabled) [
    | inl on ↦ rw on refl
    | inr off ↦ rw off refl
  ]

  -- The cache after an answer to the question that raised: as before; or, if the collection was
  -- missing, a new one without its indexes; or a collection that was made sure of, with or without one
  -- point more, which is for the question and the filters. All but the first come of an exception of
  -- `store`.
  pub data IsLeft (faults : Faults) (question : String) (f : SearchFilters)
      (before after : qdrant.State) : Type 0 where
    untouched : after ≡ before → IsLeft faults question f before after
    created :
        (e : Error)
        → faults.store_raises ≡ some (in_indexes e)
        → qdrant.collection_exists before ≡ false
        → after ≡ qdrant.create_collection embedding_dimension before
        → IsLeft faults question f before after
    ensured :
        (e : Error)
        → faults.store_raises ≡ some (in_upsert e)
        → after ≡ ensure_collection (collections_of qdrant) embedding_dimension before
        → IsLeft faults question f before after
    answer_stored :
        (e : Error)
        → faults.store_raises ≡ some (after_upsert e)
        → (c : StoreCall Score) → c.question ≡ question
        → c.search_filters ≡ f
        → after
          ≡ qdrant.upsert
              (new_point settings get_query_embedding c)
              (ensure_collection (collections_of qdrant) embedding_dimension before)
        → IsLeft faults question f before after

  module _ (faults : Faults) (c : StoreCall Score) (s : qdrant.State) where
    stored-IsLeft :
        (fault : Option StoreFault)
        → faults.store_raises ≡ fault
        → (e : Error)
        → (stored settings get_query_embedding qdrant fault embedding_dimension c s).0 ≡ err e
        → IsLeft faults c.question c.search_filters s
            (stored settings get_query_embedding qdrant fault embedding_dimension c s).1
    stored-IsLeft none here e h = absurd (cc h)
    stored-IsLeft (some (in_collection x)) here e h = untouched refl
    stored-IsLeft (some (in_indexes x)) here e h = elim (Bool-cases (qdrant.collection_exists s)) [
      | inl there ↦ rw there (untouched refl)
      | inr missing ↦ rw missing (created x here missing refl)
    ]
    stored-IsLeft (some (in_upsert x)) here e h = ensured x here refl
    stored-IsLeft (some (after_upsert x)) here e h = answer_stored x here c refl refl refl

    try_store-cases :
        let out =
          try_store settings get_query_embedding qdrant faults.store_raises embedding_dimension c
            s in
        (out ≡ (ok tt, s))
        ⊎ (out
            ≡ stored settings get_query_embedding qdrant faults.store_raises embedding_dimension c
                s)
    unfolding try_store
    try_store-cases =
        let choice : Bool → Result (Unit {0}) × qdrant.State = λ b.
          if not b
          then (ok tt, s)
          else stored settings get_query_embedding qdrant faults.store_raises embedding_dimension c
              s in
        elim (Bool-cases settings.semantic_cache_enabled) [
          | inl on ↦ inr (ap choice on)
          | inr off ↦ inl (ap choice off)
        ]

    try_store-IsLeft :
        (e : Error)
        → (try_store settings get_query_embedding qdrant faults.store_raises embedding_dimension c
            s).0
          ≡ err e
        → IsLeft faults c.question c.search_filters s
            (try_store settings get_query_embedding qdrant faults.store_raises embedding_dimension c
              s).1
    try_store-IsLeft e h = elim try_store-cases [
      | inl off ↦ absurd (cc (h, off))
      | inr on ↦
          subst (λ r. r.0 ≡ err e → IsLeft faults c.question c.search_filters s r.1) (sym on)
            (stored-IsLeft faults.store_raises refl e) h
    ]

  module _ (llama : Llama Score) (lower : String → String) (bm25_index : Option ℕ) (llm : Llm)
      (faults : Faults) (times : Times) (i : ℕ) (question : String) (f : SearchFilters)
      (s : ChatState Score qdrant.State) where
    abbrev Leaves : List (Event Score) × Result (Tables Score) × qdrant.State → Type 0
    Leaves out = (e : Error) → out.1 ≡ err e → IsLeft faults question f s.cache out.2

    after_store-IsLeft :
        (events : List (Event Score)) (cs : List (Citation Score)) (t : Tables Score)
        (out : Result (Unit {0}) × qdrant.State)
        → ((e : Error) → out.0 ≡ err e → IsLeft faults question f s.cache out.1)
        → Leaves (
            after_store settings get_query_embedding qdrant embedding_dimension llama lower
              bm25_index llm faults events cs t out)
    after_store-IsLeft events cs t (err e, cache) left x h = left e refl
    after_store-IsLeft events cs t (ok u, cache) left x h = absurd (cc h)

    finish-IsLeft :
        (cs : List (Citation Score)) (out : List (Event Score) × Result String)
        → Leaves (
            finish settings get_query_embedding qdrant embedding_dimension llama lower bm25_index
              llm faults times i question f cs s out)
    unfolding finish
    finish-IsLeft cs (events, err e) = λ x h. untouched refl
    finish-IsLeft cs (events, ok answer) = after_store-IsLeft events cs _ _ (
        try_store-IsLeft faults
          (answer_call settings get_query_embedding qdrant embedding_dimension llama lower
            bm25_index llm faults times question f answer cs)
          s.cache)

    answer_from-IsLeft :
        (found : Result (List (NodeWithScore Score) × List (Citation Score)))
        → Leaves (
            answer_from settings get_query_embedding qdrant embedding_dimension llama lower
              bm25_index llm faults times i question f s found)
    answer_from-IsLeft (err e) = λ x h. untouched refl
    answer_from-IsLeft (ok (nodes, cs)) =
        finish-IsLeft cs
          (consume "" (llm.astream_chat (messages_for (load_history i s.tables) cs question)))

    answer_with-IsLeft :
        (entry : Option (CacheEntry Score))
        → Leaves (
            answer_with settings get_query_embedding qdrant embedding_dimension llama lower
              bm25_index llm faults times i question f s entry)
    unfolding answer_cached answer_fresh
    answer_with-IsLeft none = answer_from-IsLeft _
    answer_with-IsLeft (some entry) = λ x h. absurd (cc h)

    answer_asked-IsLeft :
        (fault : Option Error)
        → Leaves (
            answer_asked settings get_query_embedding qdrant embedding_dimension llama lower
              bm25_index llm faults times i question f s fault)
    answer_asked-IsLeft (some e) = λ x h. untouched refl
    answer_asked-IsLeft none = answer_with-IsLeft _

    pub stream_chat_response-IsLeft : Leaves (
        stream_chat_response settings get_query_embedding qdrant embedding_dimension llama lower
          bm25_index llm faults times i question f s)
    unfolding stream_chat_response
    stream_chat_response-IsLeft = answer_asked-IsLeft _
