-- ===== src/Chat/Tests.antt =====
-- A question is answered by the model, once it is not cached.
use enterprise_doc_rag.Common.{
  ℕ, String, ◌≡◌, refl, true, false, Option, none, some, List, [], ◌∷◌, string_eq, option_eq,
  nat_eq, list_eq,
}
use enterprise_doc_rag.Common.Text.{is_space}
use enterprise_doc_rag.Common.Result.{Result, ok, external}
use enterprise_doc_rag.Config.{default_settings as settings}
use enterprise_doc_rag.Security.Keys.{ApiKey}
use enterprise_doc_rag.Retrieval.Filters.{
  NodeWithScore, SearchFilters, node_matches_filters, build_metadata_filters, retrieve_filtered,
}
use enterprise_doc_rag.Retrieval.Citations.{Citation, build_citations}
use enterprise_doc_rag.Retrieval.Dedup.{dedupe_sentences, split}
use enterprise_doc_rag.Retrieval.Search.{
  filtered_bm25, build_hybrid_retriever, build_postprocessors,
}
use enterprise_doc_rag.Retrieval.Search.Memory.{memory_llama}
use enterprise_doc_rag.Cache.{try_store, after_upsert, CachePoint, lookup}
use enterprise_doc_rag.Cache.Memory.{memory_qdrant}
use enterprise_doc_rag.Conversations.{Tables, load_history}
use enterprise_doc_rag.Chat.{
  Event, Faults, Llm, citations, token, done, finished, chunk, Times, ChatState,
  stream_chat_response, answer_fresh, finish, retrieve_and_build_citations,
}
use enterprise_doc_rag.Chat.Prompt.{build_context_block}
use enterprise_doc_rag.Chat.Transcript.{IsAnswer, stream_chat_response-IsAnswer}
use enterprise_doc_rag.Chat.Requests.{ChatRequest}

abbrev embedding : String → String
embedding text = text

abbrev lower : String → String
lower text = text

abbrev node : String → String → NodeWithScore ℕ
node tenant text = record {
  text = text;
  metadata = record {
    tenant_id = some tenant;
    department = some "hr";
    doc_type = none;
    tags = none;
    source_file = some "leave.pdf";
    document_id = some "7";
    page_label = some "2";
    section_title = none;
    slide_number = none;
  };
  score = none;
}

abbrev corpus : List (NodeWithScore ℕ)
corpus = node "globex" "Secret." ∷ node "acme" "Leave is 25 days." ∷ []

abbrev filters : SearchFilters
filters = record { tenant_id = "acme"; department = none; doc_type = none; tags = none }

abbrev key : ApiKey
key = record {
  id = 1;
  tenant_id = "acme";
  name = "demo";
  key_hash = "";
  key_prefix = "edr_";
  allowed_filters = [];
  is_admin = true;
  created_at = 5;
  revoked_at = none;
  last_used_at = none;
}

abbrev llm : Llm
llm = record {
  acomplete = λ prompt. ok " How long is leave? ";
  astream_chat = λ messages. chunk (some "25 ") (chunk none (chunk (some "days [1]") finished));
}

abbrev times : Times
times = record { transaction = 9; asked = 10; answered = 12; point_id = 3 }

abbrev faults : Faults
faults = record { lookup_raises = none; store_raises = none }

abbrev before : ChatState ℕ (Option (List (CachePoint ℕ String)))
before = record {
  tables = record {
    conversations =
        record { id = 1; tenant_id = "acme"; title = none; created_at = 1; updated_at = 1 } ∷ [];
    messages = [];
  };
  cache = none;
}

abbrev cited : List (Citation ℕ)
cited = build_citations (node "acme" "Leave is 25 days." ∷ [])

context_run : build_context_block cited ≡ "[1] (Source: leave.pdf, page 2)\nLeave is 25 days."
unfolding build_citations
context_run = refl

events_run :
    (stream_chat_response settings embedding memory_qdrant 1536
      (memory_llama corpus)
      lower
      none
      llm
      faults
      times
      1
      "How long?"
      filters
      before).0
    ≡ citations cited ∷ token "25 " ∷ token "days [1]" ∷ done false ∷ []
unfolding stream_chat_response answer_fresh finish retrieve_and_build_citations lookup
    build_hybrid_retriever build_postprocessors build_citations build_metadata_filters
    node_matches_filters retrieve_filtered filtered_bm25 load_history dedupe_sentences split
    try_store string_eq option_eq nat_eq is_space
events_run = refl

abbrev out : List (Event ℕ) × Result (Tables ℕ) × Option (List (CachePoint ℕ String))
out =
    stream_chat_response settings embedding memory_qdrant 1536 (memory_llama corpus) lower none llm
      faults times 1 "How long?" filters before

stream_chat_response-IsAnswer_example : IsAnswer 9 1 "How long?" filters before.tables out.0 out.1
stream_chat_response-IsAnswer_example =
    stream_chat_response-IsAnswer settings embedding memory_qdrant 1536 (memory_llama corpus) lower
      none llm faults times 1 "How long?" filters before

abbrev request : ChatRequest
request = record {
  query = "How long?";
  conversation_id = some 1;
  department = none;
  doc_type = none;
  tags = none;
}

-- The point is stored, and then the call raises.
abbrev lost_reply : Faults
lost_reply = record { lookup_raises = none; store_raises = some (after_upsert external) }
