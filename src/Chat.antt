-- ===== src/Chat.antt =====
-- core/chat/engine.py. The language model is a parameter,
-- as are llama_index's retrievers, Qdrant and the embedding model. The events of the generator are
-- those that it yields before it returns or raises.
pub mod Prompt
pub mod Requests
pub mod Transcript
mod Tests
use enterprise_doc_rag.Common.{
  ℕ, String, ◌<>◌, Bool, true, false, Option, none, some, List, [], ◌∷◌, ◌++◌, ◌==◌, string_eq,
  if◌then◌else◌, contains,
}
use enterprise_doc_rag.Common.Text.{is_blank, or_blank, truthy, strip}
use enterprise_doc_rag.Common.Result.{Result, Error, ok, err, ◌>>=◌}
use enterprise_doc_rag.Config.{Settings}
use enterprise_doc_rag.Security.Keys.{ApiKey}
use enterprise_doc_rag.Security.Scoping.{resolve_scoped_filters}
use enterprise_doc_rag.Retrieval.Filters.{NodeWithScore, SearchFilters}
use enterprise_doc_rag.Retrieval.Citations.{Citation, build_citations}
use enterprise_doc_rag.Retrieval.Search.{
  Llama, build_hybrid_retriever, build_postprocessors, apply_all,
}
use enterprise_doc_rag.Cache.{Qdrant, CacheEntry, StoreCall, StoreFault, lookup, try_store}
use enterprise_doc_rag.Conversations.{
  Conversation, Tables, ChatMessage, system, user, load_history, append_message,
  get_or_create_conversation,
}
use Prompt.{chat_system_prompt, condense_prompt, user_prompt}

-- What the model streams: deltas, until it finishes or fails.
pub data Stream : Type 0 where
  finished : Stream
  failed : Error → Stream
  chunk : Option String → Stream → Stream

pub record Llm : Type 0 where
  pub acomplete : String → Result String
  pub astream_chat : List ChatMessage → Stream

pub data Event (Score : Type 0) : Type 0 where
  conversation : ℕ → Event Score
  citations : List (Citation Score) → Event Score
  token : String → Event Score
  done : Bool → Event Score

-- The clock: when the transaction of the messages started, when the cache is asked, and when and
-- under which id the answer is cached.
pub record Times : Type 0 where
  pub transaction : ℕ
  pub asked : ℕ
  pub answered : ℕ
  pub point_id : ℕ

-- `list({c.document_id for c in citations if c.document_id})`, in some order.
abbrev pub add_id : Option String → List String → List String
add_id none ids = ids
add_id (some i) ids = if contains ids i then ids else i ∷ ids

abbrev pub document_ids : {Score : Type 0} → List (Citation Score) → List String
document_ids [] = []
document_ids (c ∷ cs) = add_id (truthy c.document_id) (document_ids cs)

abbrev pub consume : {Score : Type 0} → String → Stream → List (Event Score) × Result String
consume full_answer finished = ([], ok full_answer)
consume full_answer (failed e) = ([], err e)
consume full_answer (chunk delta rest) =
    let text = or_blank delta in
    let (events, answer) =
      consume (if is_blank text then full_answer else full_answer <> text) rest in
    if is_blank text then (events, answer) else (token text ∷ events, answer)

abbrev pub condense_question : Llm → List ChatMessage → String → Result String
condense_question llm [] question = ok question
condense_question llm (m ∷ history) question = do
  response ← llm.acomplete (condense_prompt (m ∷ history) question)
  ok (strip response)

module _ {Score : Type 0} where
  -- The question and the answer, appended to the conversation.
  abbrev pub record_answer :
      ℕ → ℕ → String → SearchFilters → String → List (Citation Score) → Tables Score → Tables Score
  record_answer now i question f answer cs t =
      append_message now i "assistant" answer cs none
        (append_message now i "user" question [] (some f) t)

  abbrev pub messages_for : List ChatMessage → List (Citation Score) → String → List ChatMessage
  messages_for history cs question =
      record { role = system; content = chat_system_prompt }
      ∷ (history ++ (record { role = user; content = user_prompt cs question } ∷ []))

-- The exceptions of Qdrant and of the embedding model in the calls of the cache.
pub record Faults : Type 0 where
  pub lookup_raises : Option Error
  pub store_raises : Option StoreFault

-- The tables and the cache, as the transaction sees them.
pub record ChatState (Score CacheState : Type 0) : Type 0 where
  pub tables : Tables Score
  pub cache : CacheState

module _ {Score Vector : Type 0} (settings : Settings) (get_query_embedding : String → Vector)
    (qdrant : Qdrant Score Vector) (embedding_dimension : ℕ) (llama : Llama Score)
    (lower : String → String) (bm25_index : Option ℕ) (llm : Llm) (faults : Faults) where
  abbrev pub State : Type 0
  State = ChatState Score qdrant.State

  -- What the generator yields; then the tables, unless it raises; and the cache.
  abbrev pub Outcome : Type 0
  Outcome = List (Event Score) × Result (Tables Score) × qdrant.State

  unfoldable pub retrieve_and_build_citations :
      String → SearchFilters → Result (List (NodeWithScore Score) × List (Citation Score))
  retrieve_and_build_citations query f = do
    found ← build_hybrid_retriever llama settings f bm25_index query
    nodes ← apply_all llama settings lower (build_postprocessors llama settings lower) query found
    ok (nodes, build_citations nodes)

  unfoldable pub answer_cached :
      Times → ℕ → String → SearchFilters → CacheEntry Score → State → Outcome
  answer_cached times i question f entry s = (
    citations entry.citations ∷ token entry.answer ∷ done true ∷ [],
    ok (record_answer times.transaction i question f entry.answer entry.citations s.tables),
    s.cache,
  )

  abbrev pub answer_call :
      Times → String → SearchFilters → String → List (Citation Score) → StoreCall Score
  answer_call times question f full_answer cs = record {
    new_id = times.point_id;
    time = times.answered;
    question = question;
    answer = full_answer;
    citations = cs;
    search_filters = f;
    source_document_ids = document_ids cs;
  }

  abbrev pub after_store :
      List (Event Score)
      → List (Citation Score)
      → Tables Score
      → Result (Unit {0}) × qdrant.State
      → Outcome
  after_store events cs t (err e, cache) = (citations cs ∷ events, err e, cache)
  after_store events cs t (ok u, cache) =
      (citations cs ∷ (events ++ (done false ∷ [])), ok t, cache)

  unfoldable pub finish :
      Times
      → ℕ
      → String
      → SearchFilters
      → List (Citation Score)
      → State
      → List (Event Score) × Result String
      → Outcome
  finish times i question f cs s (events, err e) = (citations cs ∷ events, err e, s.cache)
  finish times i question f cs s (events, ok full_answer) =
      after_store events cs (record_answer times.transaction i question f full_answer cs s.tables) (
        try_store settings get_query_embedding qdrant faults.store_raises embedding_dimension
          (answer_call times question f full_answer cs) s.cache)

  abbrev pub answer_from :
      Times
      → ℕ
      → String
      → SearchFilters
      → State
      → Result (List (NodeWithScore Score) × List (Citation Score))
      → Outcome
  answer_from times i question f s (err e) = ([], err e, s.cache)
  answer_from times i question f s (ok (nodes, cs)) =
      finish times i question f cs s
        (consume "" (llm.astream_chat (messages_for (load_history i s.tables) cs question)))

  unfoldable pub answer_fresh : Times → ℕ → String → SearchFilters → State → Outcome
  answer_fresh times i question f s = answer_from times i question f s (
      (if settings.query_rewrite_enabled
        then condense_question llm (load_history i s.tables) question
        else ok question)
      >>= (λ standalone. retrieve_and_build_citations standalone f))

  abbrev pub answer_with :
      Times → ℕ → String → SearchFilters → State → Option (CacheEntry Score) → Outcome
  answer_with times i question f s (some entry) = answer_cached times i question f entry s
  answer_with times i question f s none = answer_fresh times i question f s

  -- A lookup that is disabled does not raise.
  abbrev pub answer_asked : Times → ℕ → String → SearchFilters → State → Option Error → Outcome
  answer_asked times i question f s (some e) = ([], err e, s.cache)
  answer_asked times i question f s none =
      answer_with times i question f s
        (lookup settings get_query_embedding qdrant question f times.asked s.cache)

  unfoldable pub stream_chat_response : Times → ℕ → String → SearchFilters → State → Outcome
  stream_chat_response times i question f s =
      answer_asked times i question f s
        (if settings.semantic_cache_enabled then faults.lookup_raises else none)
