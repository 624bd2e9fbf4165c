-- ===== src/Chat/Transcript.antt =====
-- The events of an answer, and what is stored of it.
use text.Mathlib.TextLemmas.{nil-append, append-nil, append_assoc}
use enterprise_doc_rag.Common.{
  ℕ, String, ◌<>◌, ◌≡◌, refl, sym, ap, ◌∙◌, inl, inr, Bool, true, false, Option, none, some, List,
  [], ◌∷◌, ◌++◌, map, any, Bool-cases,
}
use enterprise_doc_rag.Common.Text.{is_blank, or_blank, concat}
use enterprise_doc_rag.Common.Result.{Result, Error, ok, err}
use enterprise_doc_rag.Config.{Settings}
use enterprise_doc_rag.Retrieval.Filters.{NodeWithScore, SearchFilters}
use enterprise_doc_rag.Retrieval.Citations.{Citation}
use enterprise_doc_rag.Retrieval.Search.{Llama}
use enterprise_doc_rag.Cache.{Qdrant, CacheEntry}
use enterprise_doc_rag.Conversations.{Message, Tables, non_empty, load_history, append_message}
use enterprise_doc_rag.Chat.{
  Llm, Stream, finished, failed, chunk, Event, conversation, citations, token, done, Times,
  ChatState, consume, record_answer, answer_cached, finish, answer_from, answer_fresh,
  stream_chat_response, messages_for, Faults, after_store, answer_with, answer_asked,
}

abbrev pub is_done : {Score : Type 0} → Event Score → Bool
is_done (done cached) = true
is_done (conversation i) = false
is_done (citations cs) = false
is_done (token text) = false

-- What a stream gives: the tokens, and their concatenation unless it fails.
pub data Consumed {Score : Type 0} (before : String) (out : List (Event Score) × Result String)
    : Type 0 where
  answered :
      (ts : List String)
      → out.0 ≡ map token ts
      → out.1 ≡ ok (before <> concat ts)
      → Consumed before out
  broken : (e : Error) → any is_done out.0 ≡ false → out.1 ≡ err e → Consumed before out

tokens_only :
    (Score : Type 0) (ts : List String) → any (is_done {Score = Score}) (map token ts) ≡ false
tokens_only Score [] = refl
tokens_only Score (x ∷ ts) = tokens_only Score ts

module _ {Score : Type 0} where
  consume-Consumed :
      (before : String) (s : Stream) → Consumed {Score = Score} before (consume before s)
  consume-Consumed before finished = answered [] refl (ap ok (sym (append-nil before)))
  consume-Consumed before (failed e) = broken e refl refl
  consume-Consumed before (chunk delta rest) = elim (Bool-cases (is_blank (or_blank delta))) [
    | inl blank ↦ rw blank (consume-Consumed before rest)
    | inr text ↦ elim (consume-Consumed (before <> or_blank delta) rest) [
      | answered ts e f ↦ rw text (
          answered (or_blank delta ∷ ts) (ap (λ es. token (or_blank delta) ∷ es) e)
            (f ∙ ap ok (append_assoc before (or_blank delta) (concat ts))))
      | broken x h f ↦ rw text (broken x h f)
    ]
  ]

  abbrev pub question_row : ℕ → ℕ → String → SearchFilters → Message Score
  question_row now i question f = record {
    conversation_id = i;
    role = "user";
    content = question;
    citations = none;
    retrieval_filters = some f;
    created_at = now;
  }

  abbrev pub answer_row : ℕ → ℕ → String → List (Citation Score) → Message Score
  answer_row now i answer cs = record {
    conversation_id = i;
    role = "assistant";
    content = answer;
    citations = non_empty cs;
    retrieval_filters = none;
    created_at = now;
  }

  -- Either the client is sent the citations, the tokens and one `done`, and the question and the
  -- concatenated tokens are appended to the conversation; or the generator raises, and no `done` was
  -- sent.
  pub data IsAnswer (now i : ℕ) (question : String) (f : SearchFilters) (t : Tables Score)
      (events : List (Event Score)) (result : Result (Tables Score)) : Type 0 where
    completed :
        (cs : List (Citation Score)) (ts : List String) (cached : Bool) (t' : Tables Score)
        → events ≡ citations cs ∷ (map token ts ++ (done cached ∷ []))
        → result ≡ ok t'
        → t'.conversations ≡ t.conversations
        → t'.messages
          ≡ (t.messages ++ (question_row now i question f ∷ []))
            ++ (answer_row now i (concat ts) cs ∷ [])
        → IsAnswer now i question f t events result
    interrupted :
        (e : Error)
        → result ≡ err e
        → any is_done events ≡ false
        → IsAnswer now i question f t events result

  record_answer-messages :
      (now i : ℕ) (question : String) (f : SearchFilters) (answer : String)
      (cs : List (Citation Score)) (t : Tables Score)
      → record_answer now i question f answer cs t ≡ record t {
        messages =
            (t.messages ++ (question_row now i question f ∷ []))
            ++ (answer_row now i answer cs ∷ []);
      }
  unfolding append_message
  record_answer-messages now i question f answer cs t = refl

module _ {Score Vector : Type 0} (settings : Settings) (get_query_embedding : String → Vector)
    (qdrant : Qdrant Score Vector) (embedding_dimension : ℕ) (llama : Llama Score)
    (lower : String → String) (bm25_index : Option ℕ) (llm : Llm) (faults : Faults) (times : Times)
    (i : ℕ) (question : String) (f : SearchFilters) (s : ChatState Score qdrant.State) where
  abbrev Answers : List (Event Score) × Result (Tables Score) × qdrant.State → Type 0
  Answers out = IsAnswer times.transaction i question f s.tables out.0 out.1

  after_store-IsAnswer :
      (events : List (Event Score)) (cs : List (Citation Score)) (ts : List String)
      (answer : String) (out : Result (Unit {0}) × qdrant.State)
      → events ≡ map token ts
      → answer ≡ concat ts
      → Answers (
          after_store settings get_query_embedding qdrant embedding_dimension llama lower bm25_index
            llm faults events cs
            (record_answer times.transaction i question f answer cs s.tables)
            out)
  after_store-IsAnswer events cs ts answer (err e, cache) g same =
      interrupted e refl (rw g (tokens_only Score ts))
  after_store-IsAnswer events cs ts answer (ok u, cache) g same =
      completed cs ts false _ (rw g refl) refl
        (ap (λ t. t.conversations)
          (record_answer-messages times.transaction i question f answer cs s.tables))
        (ap (λ t. t.messages)
            (record_answer-messages times.transaction i question f answer cs s.tables)
          ∙ rw same refl)

  finish-IsAnswer :
      (cs : List (Citation Score)) (out : List (Event Score) × Result String)
      → Consumed "" out
      → Answers (
          finish settings get_query_embedding qdrant embedding_dimension llama lower bm25_index llm
            faults times i question f cs s out)
  unfolding finish
  finish-IsAnswer cs (events, err e) (answered ts g h) = cc
  finish-IsAnswer cs (events, ok answer) (broken e g h) = cc
  finish-IsAnswer cs (events, err e) (broken x g h) = interrupted e refl g
  finish-IsAnswer cs (events, ok answer) (answered ts g h) =
      after_store-IsAnswer events cs ts answer _ g (cc (h, nil-append (concat ts)))

  answer_from-IsAnswer :
      (found : Result (List (NodeWithScore Score) × List (Citation Score)))
      → Answers (
          answer_from settings get_query_embedding qdrant embedding_dimension llama lower bm25_index
            llm faults times i question f s found)
  answer_from-IsAnswer (err e) = interrupted e refl refl
  answer_from-IsAnswer (ok (nodes, cs)) =
      let stream = llm.astream_chat (messages_for (load_history i s.tables) cs question) in
      finish-IsAnswer cs (consume "" stream) (consume-Consumed "" stream)

  answer_with-IsAnswer :
      (entry : Option (CacheEntry Score))
      → Answers (
          answer_with settings get_query_embedding qdrant embedding_dimension llama lower bm25_index
            llm faults times i question f s entry)
  unfolding answer_cached answer_fresh
  answer_with-IsAnswer none = answer_from-IsAnswer _
  answer_with-IsAnswer (some entry) =
      completed entry.citations (entry.answer ∷ []) true _ refl refl
        (ap (λ t. t.conversations)
          (record_answer-messages times.transaction i question f entry.answer entry.citations
            s.tables))
        (ap (λ t. t.messages)
            (record_answer-messages times.transaction i question f entry.answer entry.citations
              s.tables)
          ∙ rw (append-nil entry.answer) refl)

  answer_asked-IsAnswer :
      (fault : Option Error)
      → Answers (
          answer_asked settings get_query_embedding qdrant embedding_dimension llama lower
            bm25_index llm faults times i question f s fault)
  answer_asked-IsAnswer (some e) = interrupted e refl refl
  answer_asked-IsAnswer none = answer_with-IsAnswer _

  -- An answer of the chat engine, from the cache or from the model, is complete or interrupted, in
  -- the sense of `IsAnswer`, and there is no other way for it to end.
  pub stream_chat_response-IsAnswer :
      let out =
        stream_chat_response settings get_query_embedding qdrant embedding_dimension llama lower
          bm25_index llm faults times i question f s in
      IsAnswer times.transaction i question f s.tables out.0 out.1
  unfolding stream_chat_response
  stream_chat_response-IsAnswer = answer_asked-IsAnswer _
