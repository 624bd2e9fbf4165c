-- ===== src/Chat/Requests.antt =====
-- api/v1/chat.py and schemas/chat.py: the endpoint, from its resolved key on. The conversation is
-- committed before the stream starts, and the messages once the generator is exhausted.
pub mod Left
pub mod Spared
use enterprise_doc_rag.Common.{ℕ, String, Option, none, some, List, [], ◌∷◌}
use enterprise_doc_rag.Common.Result.{Result, Error, ok, err, ◌>>=◌}
use enterprise_doc_rag.Config.{Settings}
use enterprise_doc_rag.Security.Keys.{ApiKey}
use enterprise_doc_rag.Security.Scoping.{resolve_scoped_filters}
use enterprise_doc_rag.Retrieval.Search.{Llama}
use enterprise_doc_rag.Cache.{Qdrant}
use enterprise_doc_rag.Conversations.{Conversation, Tables, get_or_create_conversation}
use enterprise_doc_rag.Chat.{
  Llm, Faults, Event, conversation, Times, ChatState, stream_chat_response,
}

pub record ChatRequest : Type 0 where
  pub query : String
  pub conversation_id : Option ℕ
  pub department : Option (List String)
  pub doc_type : Option (List String)
  pub tags : Option (List String)

-- What the client was sent, and what is stored once the stream has ended: an exception in it takes
-- back what the transaction had done, but not what was done to the cache.
pub record Streamed (Score CacheState : Type 0) : Type 0 where
  pub events : List (Event Score)
  pub raised : Option Error
  pub state : ChatState Score CacheState

-- The end of `event_stream`.
abbrev pub commit_stream :
    {Score CacheState : Type 0}
    → ℕ
    → ChatState Score CacheState
    → List (Event Score) × Result (Tables Score) × CacheState
    → Streamed Score CacheState
commit_stream i committed (events, err e, cache) = record {
  events = conversation i ∷ events;
  raised = some e;
  state = record { tables = committed.tables; cache = cache };
}
commit_stream i committed (events, ok t, cache) = record {
  events = conversation i ∷ events;
  raised = none;
  state = record { tables = t; cache = cache };
}

module _ {Score Vector : Type 0} (settings : Settings) (get_query_embedding : String → Vector)
    (qdrant : Qdrant Score Vector) (embedding_dimension : ℕ) (llama : Llama Score)
    (lower : String → String) (bm25_index : Option ℕ) (llm : Llm) (faults : Faults) where
  unfoldable pub chat :
      ChatRequest
      → ApiKey
      → ℕ
      → ℕ
      → Times
      → ChatState Score qdrant.State
      → Result (Streamed Score qdrant.State)
  chat request api_key new_id now times s = do
    f ← resolve_scoped_filters api_key request.department request.doc_type request.tags
    (c, tables) ←
        get_or_create_conversation new_id now api_key.tenant_id request.conversation_id s.tables
    let committed : ChatState Score qdrant.State = record s { tables = tables }
    ok (
        commit_stream c.id committed (
          stream_chat_response settings get_query_embedding qdrant embedding_dimension llama lower
            bm25_index llm faults times c.id request.query f committed))
