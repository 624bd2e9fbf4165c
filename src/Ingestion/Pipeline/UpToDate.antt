-- ===== src/Ingestion/Pipeline/UpToDate.antt =====
-- What an ingestion that returned has done.
use enterprise_doc_rag.Common.{
  false, Member, ℕ, String, ◌≡◌, refl, sym, ap, ◌∙◌, inl, inr, true, Option, none, some, List,
  Bool-cases, string_eq, nat_eq,
}
use enterprise_doc_rag.Common.Result.{Result, ok}
use enterprise_doc_rag.Common.Io.{returned}
use enterprise_doc_rag.Cache.{Qdrant}
use enterprise_doc_rag.Registry.{
  Document, Registry, VersionDecision, find_document, has_key, completed, finalize,
  get_or_create_document,
}
use enterprise_doc_rag.Registry.Consistent.{IsConsistent, IsFresh}
use enterprise_doc_rag.Registry.Lifecycle.{
  IsConsistent-of_ok, IsStarted-of_changed, stored-of_unchanged,
}
use enterprise_doc_rag.Registry.Ingested.{
  new-IsIngested, get_or_create_document_spares, has_id-of_other_key,
}
use enterprise_doc_rag.Ingestion.Metadata.{ResolvedMetadata}
use enterprise_doc_rag.Ingestion.World.{lift_first, session_first}
use enterprise_doc_rag.Ingestion.Stores.{Node, Docstore, VectorStore}
use enterprise_doc_rag.Ingestion.Pipeline.{
  Loader, SourceFile, IngestResult, ingested, unchanged, skipped_unsupported, NodeParser, State,
  file_info, file_metadata, ingest_changed, ingest_decided, ingest_with, ingest_file, loader_of,
}
use enterprise_doc_rag.Ingestion.Pipeline.Replaced.{
  IsAccounted, IsReplaced, IsChunked, ingest_changed-IsReplaced,
}

module _ {Content Score Vector : Type 0} (docstore : Docstore Content) (store : VectorStore Content)
    (qdrant : Qdrant Score Vector) where
  -- The row of the file is completed, with the hash of the contents and the number of the chunks,
  -- and the nodes of its document are those of this run.
  pub record IsUpToDate (parser : NodeParser Content) (lower : String → String) (root : String)
      (file : SourceFile Content) (resolved : ResolvedMetadata) (w w' : State docstore store qdrant)
      (res : IngestResult) : Type 0 where
    pub content_hash : String
    pub size_bytes : ℕ
    pub read : file.read ≡ ok (content_hash, size_bytes)
    pub document : Document
    pub key : has_key resolved.tenant_id file.relative_path document ≡ true
    pub status : document.status ≡ completed
    pub hash : document.content_hash ≡ content_hash
    pub spared :
        (x : Document)
        → Member x w.registry.documents
        → has_key resolved.tenant_id file.relative_path x ≡ false
        → Member x w'.registry.documents
    pub chunks : document.num_chunks ≡ res.num_leaf_chunks
    pub loader : Loader
    pub supported : loader_of (lower file.suffix) ≡ some loader
    pub chunked :
        IsChunked docstore store qdrant parser file loader
          (file_metadata
            (file_info root (lower file.suffix) file resolved content_hash size_bytes)
            document)
          w'
          document.num_chunks
    pub replaced :
        IsReplaced docstore store qdrant
          (file_metadata
            (file_info root (lower file.suffix) file resolved content_hash size_bytes)
            document)
          w
          w'
          document

  -- The branches of `ingest_file` that return.
  pub data Returned (parser : NodeParser Content) (lower : String → String) (root : String)
      (file : SourceFile Content) (resolved : ResolvedMetadata) (w w' : State docstore store qdrant)
      (res : IngestResult) : Type 0 where
    skipped_file :
        loader_of (lower file.suffix) ≡ none
        → res.status ≡ skipped_unsupported
        → w' ≡ w
        → Returned parser lower root file resolved w w' res
    unchanged_file :
        res.status ≡ unchanged
        → w' ≡ w
        → (content_hash : String) → (size_bytes : ℕ) → file.read ≡ ok (content_hash, size_bytes)
        → (d : Document)
        → find_document resolved.tenant_id file.relative_path w.registry ≡ ok (some d)
        → d.content_hash ≡ content_hash
        → d.status ≡ completed
        → Returned parser lower root file resolved w w' res
    ingested_file :
        res.status ≡ ingested
        → IsUpToDate parser lower root file resolved w w' res
        → Returned parser lower root file resolved w w' res

  module _ (parser : NodeParser Content) (embed : List (Node Content) → Result (Unit {0}))
      (embedding_dimension : ℕ) (lower : String → String) (root : String) (new_id now : ℕ)
      (file : SourceFile Content) (resolved : ResolvedMetadata) (w w' : State docstore store qdrant)
      (res : IngestResult) (c : IsConsistent w.registry) (fresh : IsFresh new_id w.registry)
      (a : IsAccounted docstore store qdrant w.registry w) where
    decided-Returned :
        (loader : Loader)
        → loader_of (lower file.suffix) ≡ some loader
        → (content_hash : String) (size_bytes : ℕ) → file.read ≡ ok (content_hash, size_bytes)
        → let info = file_info root (lower file.suffix) file resolved content_hash size_bytes in
          (decision : VersionDecision) (r : Registry)
          → get_or_create_document new_id now info w.registry ≡ ok (decision, r)
          → ingest_decided docstore store qdrant parser embed embedding_dimension lower root file
              loader info decision
              (record w { registry = r })
            ≡ (ok res, w')
          → Returned parser lower root file resolved w w' res
    unfolding ingest_decided
    decided-Returned loader supported content_hash size_bytes read decision r got h =
        let info = file_info root (lower file.suffix) file resolved content_hash size_bytes in
        elim (Bool-cases decision.changed) [
          | inl changed ↦
              let s = IsStarted-of_changed new_id now info w.registry c (decision, r) got changed in
              let c' = IsConsistent-of_ok new_id now info w.registry c fresh (decision, r) got in
              let h' : ingest_changed docstore store qdrant parser embed embedding_dimension lower
                    root file loader info decision (record w { registry = r })
                  ≡ (ok res, w') =
                rw changed at h in
              let (done, replaced, spares, chunked) =
                ingest_changed-IsReplaced docstore store qdrant parser embed embedding_dimension
                  lower root file loader info decision r w w' res s c' a
                  (new-IsIngested w.registry c new_id now info (decision, r) got fresh) h' in
              ingested_file done (record {
                content_hash = content_hash;
                size_bytes = size_bytes;
                read = read;
                document = finalize res.num_leaf_chunks decision.document;
                key = s.key;
                status = refl;
                hash = s.hash;
                spared = λ x m other.
                    let m' =
                      get_or_create_document_spares w.registry c new_id now info (decision, r) got x
                        m other in
                    spares x m' (
                      has_id-of_other_key r c' resolved.tenant_id file.relative_path
                        decision.document x s.stored s.key m' other);
                chunks = refl;
                loader = loader;
                supported = supported;
                chunked = chunked;
                replaced = replaced;
              })
          | inr same ↦
              let (e, f) = returned _ res _ w' (rw same at h) in
              let (kept, found, hash, done) =
                stored-of_unchanged new_id now info w.registry c (decision, r) got same in
              let back : record w { registry = r } ≡ w = ap (λ x. record w { registry = x }) kept in
              unchanged_file (sym (ap (λ x. x.status) e)) (sym f ∙ back) content_hash size_bytes
                read decision.document found hash done
        ]

    with-Returned :
        (loader : Option Loader)
        → loader_of (lower file.suffix) ≡ loader
        → ingest_with docstore store qdrant parser embed embedding_dimension lower root new_id now
            file resolved loader w
          ≡ (ok res, w')
        → Returned parser lower root file resolved w w' res
    with-Returned none unsupported h =
        let (e, f) = returned _ res w w' h in
        skipped_file unsupported (sym (ap (λ x. x.status) e)) (sym f)
    with-Returned (some loader) supported h =
        let ((content_hash, size_bytes), read, h1) = lift_first w w' res file.read _ h in
        let info = file_info root (lower file.suffix) file resolved content_hash size_bytes in
        let (decision, r, got, h2) =
          session_first w w' res _ (get_or_create_document new_id now info w.registry) h1 in
        decided-Returned loader supported content_hash size_bytes read decision r got h2

    -- From consistent tables, a fresh id and stores whose nodes are of ingested documents, an
    -- ingestion that returns has done one of three things: the suffix has no loader and nothing is
    -- changed; or the stored row is completed with the hash of the file and nothing is changed; or
    -- the row of the tenant and path is completed with the hash of the file and the number of the
    -- leaf chunks that the parser makes of what the loader reads, those chunks are exactly the nodes of
    -- its document in the collection and all nodes of the parser exactly those in the docstore, each
    -- with the hash and the version of this run, every other node is where it was, and, if the document was ingested before, no cached answer
    -- cites it.
    pub ingest_file-Returned :
        ingest_file docstore store qdrant parser embed embedding_dimension lower root new_id now
            file resolved w
          ≡ (ok res, w')
        → Returned parser lower root file resolved w w' res
    unfolding ingest_file
    ingest_file-Returned = with-Returned (loader_of (lower file.suffix)) refl
