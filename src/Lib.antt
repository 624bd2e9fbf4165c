-- ===== src/Lib.antt =====
-- Enterprise document RAG: a verification library for the Python code under backend/app, from where
-- paths are given here and in the other files. The program is a multi-tenant service that ingests
-- documents, searches them and answers questions about them.
--
-- The parts, and how they meet. An API key (core/security) names a tenant and the facet values that it
-- may query; a request is authenticated, rate limited and turned into search filters within the
-- scope of its key. Retrieval (core/retrieval) gives the filters to Qdrant for the dense search and
-- applies them after the fact to BM25 results; the search endpoint and the chat engine (core/chat)
-- share this pipeline. The chat engine asks the semantic cache (core/cache) first, keeps the
-- conversations (models/conversation.py) and caches what it answered; a document that changes
-- invalidates the entries that cite it. Ingestion (ingestion) keeps a registry of documents and
-- their versions in Postgres, the nodes of each document in a docstore and its searchable chunks
-- in Qdrant and in a BM25 index on disk. Files come to it in two ways: the documents API
-- (api/v1/ingestion.py) registers an upload as queued and a worker (worker/tasks.py) runs it through
-- the pipeline, and a run over a folder (ingestion/registry_sync.py) ingests what is new or changed
-- and deletes what has gone.
--
-- How the files follow the code:
--   Common          Python's `==`, `in`, `sorted` and texts, tables as lists of rows, and exceptions as
--                   values of `Result`
--   Config          config.py, the settings that the modelled code reads
--   Registry        models/document.py and ingestion/versioning.py: `get_or_create_document`,
--                   `register_queued_upload`, `mark_document_failed`, `finalize_document`
--   Security        models/api_key.py, core/security and api/v1/auth.py: keys and authentication (Auth),
--                   the scope of a key (Scoping), the rate limiter (RateLimit)
--   Retrieval       core/retrieval: filters.py (Filters), citations.py (Citations), dedup.py (Dedup),
--                   hybrid_retriever.py, postprocessors.py, search_service.py and
--                   api/v1/search.py (Search), `ensure_collection` of qdrant_store.py
--                   (Collections)
--   Cache           core/cache/semantic_cache.py
--   Conversations   models/conversation.py, core/chat/memory.py, api/v1/conversations.py
--   Chat            core/chat/engine.py and api/v1/chat.py (Requests)
--   Facets          api/v1/filters.py
--   Ingestion       file_hash.py (FileHash), metadata_resolver.py (Metadata) and the loaders of docx,
--                   pdf and pptx files (Docx, Pdf, Pptx); pipeline.py (Files for what is read of a
--                   file, Pipeline for `ingest_file` and the purge), bm25_index.py (Bm25Index),
--                   worker/tasks.py (Worker), registry_sync.py and runner.py (Sync, Runner), and
--                   api/v1/ingestion.py (Documents). The stores that it changes are one record
--                   (World), what it relies on of them are interfaces (Stores), and Memory has a
--                   concrete value of each
--
-- A call that changes a state and may raise is a function from the state to a result and a state
-- (Common.Io), so that an exception keeps what was done before it. The session of the database and what
-- is committed are two copies of the tables: a session starts from the committed ones, a commit copies
-- its own over them, and a rollback goes back. The calls of the docstore and of the chunk collection may
-- fail after any part of their work (`Deletes` and `Adds` of Ingestion.Stores), so may each step of the
-- rebuild of the BM25 index (`Bm25` of Ingestion.Bm25Index), and in a chat the calls of the cache
-- (`Faults` of Chat).
--
-- A table of Postgres is the list of its rows, a `where` clause is a selection, an assignment to an
-- attribute of a row object changes the row with its primary key, and `scalar_one_or_none` raises where
-- two rows are found. The ids that Postgres draws and the times of the clock are arguments; that a drawn
-- id is fresh is the hypothesis `IsFresh` or `AreFresh`. Qdrant (`PayloadMatching` for the chunks,
-- `Qdrant` for the cache), Redis (`Redis`), llama_index (`Llama`), hashlib (`Hasher`) and the language
-- model (`Llm`) are records of operations and of the laws that their documentation states; a
-- concrete value of each is given with the tests. So are the docstore and the chunk collection
-- (`Docstore`, `VectorStore`) and the node parser (`NodeParser`). `str.lower` and the SHA-256 digest of a key are
-- parameters. All numbers are unbounded, as Python's are. Two recursions have fuel: the digits of a
-- number, for which the number is enough (`value-digits`), and the chunks of a file, for which its
-- length is enough (`hash_chunks_whole`).
--
-- Not modelled: the text of error details and logs, floats (scores and font sizes are opaque values),
-- the connection handling of databases and event loops, clients that leave a stream early, two
-- tasks or requests that run at the same time, a commit that fails, an exception of Qdrant in
-- `ensure_collection` or `invalidate_for_document` during an ingestion, the paths that pathlib makes of
-- the name of an upload, the parsers and models of third parties (their outputs are parameters), the
-- middleware and the provider factories, the React frontend, the migrations and the evaluation
-- harness.
pub mod Common
pub mod Registry
pub mod Retrieval
pub mod Security
pub mod Config
pub mod Cache
pub mod Conversations
pub mod Chat
pub mod Ingestion
pub mod Facets
