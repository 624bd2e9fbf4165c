-- ===== src/Ingestion/Documents.antt =====
-- api/v1/ingestion.py: the upload, the list and the deletion of documents, each in a session of its
-- own. A file that was uploaded is what is read back of it after it has been written. The files on
-- disk and their removal are parameters; an OSError of the removal is only logged.
pub mod Queued
pub mod Listed
pub mod Removed
pub mod Processed
mod Tests
use Prim.Native.Char.{Char, code}
use enterprise_doc_rag.Common.{
  ℕ, String, Bool, true, false, not, ◌&&◌, Option, none, some, List, [], ◌∷◌, ◌<>◌, ◌==◌, string_eq,
  nat_eq, select, map, if◌then◌else◌, leb,
}
use enterprise_doc_rag.Common.Text.{strip, is_blank, join}
use enterprise_doc_rag.Common.Sorting.{sort_by}
use enterprise_doc_rag.Common.Result.{Result, Error, ok, err, http, scalar_one_or_none}
use enterprise_doc_rag.Common.Io.{Io, pure, lift, ◌>>=◌}
use enterprise_doc_rag.Security.Keys.{ApiKey}
use enterprise_doc_rag.Cache.{Qdrant}
use enterprise_doc_rag.Registry.{
  Document, Registry, FileInfo, Status, queued, is_deleted, register_queued_upload,
}
use enterprise_doc_rag.Ingestion.Metadata.{ResolvedMetadata}
use enterprise_doc_rag.Ingestion.World.{World, begin, commit, query, session, updating}
use enterprise_doc_rag.Ingestion.Stores.{Node, Docstore, VectorStore}
use enterprise_doc_rag.Ingestion.Bm25Index.{Bm25, rebuild_bm25_index}
use enterprise_doc_rag.Ingestion.Pipeline.{SourceFile, State, lstrip_dots}
use enterprise_doc_rag.Ingestion.Worker.{after_rebuild, Site}
use enterprise_doc_rag.Ingestion.Sync.{delete_row}

-- `text.split(",")`: the first piece, and the pieces after it.
abbrev pub split_commas : String → String × List String
split_commas String.[] = ("", [])
split_commas (String.◌∷◌ c text) =
    let (piece, pieces) = split_commas text in
    if code c == 44 then ("", piece ∷ pieces) else (String.◌∷◌ c piece, pieces)

abbrev pub stripped_tags : List String → List String
stripped_tags pieces = select (λ t. not (is_blank t)) (map strip pieces)

abbrev pub tag_list : String → List String
tag_list tags = let (piece, pieces) = split_commas tags in stripped_tags (piece ∷ pieces)

pub record UploadForm : Type 0 where
  pub department : Option String
  pub doc_type : Option String
  pub tags : String

-- The response without the id of the task, and the metadata that the task is given.
pub record UploadResponse : Type 0 where
  pub source_path : String
  pub status : Status

abbrev pub task_metadata : ApiKey → UploadForm → ResolvedMetadata
task_metadata api_key form = record {
  tenant_id = api_key.tenant_id;
  department = form.department;
  doc_type = form.doc_type;
  tags = tag_list form.tags;
}

abbrev pub upload_info :
    {Content : Type 0} → String → ApiKey → SourceFile Content → UploadForm → String → ℕ → FileInfo
upload_info upload_root api_key file form content_hash size_bytes = record {
  tenant_id = api_key.tenant_id;
  source_path = file.relative_path;
  ingestion_root = upload_root;
  file_name = file.name;
  file_type = lstrip_dots file.suffix;
  department = form.department;
  doc_type = form.doc_type;
  tags = tag_list form.tags;
  content_hash = content_hash;
  size_bytes = size_bytes;
}

abbrev pub registered : ℕ → ℕ → FileInfo → Registry → Result (Unit {0} × Registry)
registered new_id now info r = updating (register_queued_upload new_id now info r)

pub record DocumentResponse : Type 0 where
  pub id : ℕ
  pub tenant_id : String
  pub source_path : String
  pub file_name : String
  pub file_type : String
  pub department : Option String
  pub doc_type : Option String
  pub tags : Option (List String)
  pub status : Status
  pub num_chunks : ℕ
  pub current_version : ℕ
  pub created_at : ℕ

abbrev pub document_response : Document → DocumentResponse
document_response d = record {
  id = d.id;
  tenant_id = d.tenant_id;
  source_path = d.source_path;
  file_name = d.file_name;
  file_type = d.file_type;
  department = d.department;
  doc_type = d.doc_type;
  tags = d.tags;
  status = d.status;
  num_chunks = d.num_chunks;
  current_version = d.current_version;
  created_at = d.created_at;
}

abbrev pub is_shown : String → Document → Bool
is_shown tenant d = d.tenant_id == tenant && not (is_deleted d.status)

abbrev pub newest_first : Document → Document → Bool
newest_first d e = leb e.created_at d.created_at

unfoldable pub list_documents : ApiKey → Registry → List DocumentResponse
list_documents api_key r =
    map document_response (sort_by newest_first (select (is_shown api_key.tenant_id) r.documents))

abbrev pub is_removable : ℕ → String → Document → Bool
is_removable document_id tenant d =
    d.id == document_id && d.tenant_id == tenant && not (is_deleted d.status)

module _ {Content Score Vector : Type 0} (docstore : Docstore Content) (store : VectorStore Content)
    (qdrant : Qdrant Score Vector) (upload_root : String) where
  unfoldable pub upload_document :
      ℕ
      → ℕ
      → ApiKey
      → SourceFile Content
      → UploadForm
      → Io (State docstore store qdrant) (UploadResponse × ResolvedMetadata)
  upload_document new_id now api_key file form = do
    _ ← begin
    (content_hash, size_bytes) ← lift file.read
    _ ←
        session (
          registered new_id now (upload_info upload_root api_key file form content_hash size_bytes))
    _ ← commit
    pure (record { source_path = file.relative_path; status = queued }, task_metadata api_key form)

  abbrev pub find_removable : ℕ → String → Registry → Result (Option Document)
  find_removable document_id tenant r =
      scalar_one_or_none (select (is_removable document_id tenant) r.documents)

  abbrev pub remove_found : Option Document → Io (State docstore store qdrant) Document
  remove_found none = lift (err (http 404))
  remove_found (some d) = do _ ← delete_row docstore store qdrant d; _ ← commit; pure d

  -- What is done in the session, up to its commit.
  unfoldable pub remove_document : ℕ → ApiKey → Io (State docstore store qdrant) Document
  remove_document document_id api_key = do
    _ ← begin
    found ← query (find_removable document_id api_key.tenant_id)
    remove_found found

  module _ (bm25 : Bm25 store) {Files : Type 0}
      (unlink : String → Files → Result (Unit {0}) × Files) where
    abbrev pub unlinked : Document → Files → Files
    unlinked d files =
        if d.ingestion_root == upload_root
        then (unlink (d.ingestion_root <> ("/" <> d.source_path)) files).1
        else files

    abbrev pub after_removal :
        Site docstore store qdrant
        → Files
        → Result Document × State docstore store qdrant
        → Result ℕ × Site docstore store qdrant × Files
    after_removal site files (err e, w) = (err e, record site { world = w }, files)
    after_removal site files (ok d, w) =
        let (out, site') =
          after_rebuild docstore store qdrant d.id w
            (rebuild_bm25_index store bm25 w.vectors site.index) in
        (out, site', unlinked d files)

    unfoldable pub delete_document :
        ℕ
        → ApiKey
        → Site docstore store qdrant
        → Files
        → Result ℕ × Site docstore store qdrant × Files
    unfolding remove_document
    delete_document document_id api_key site files =
        after_removal site files (remove_document document_id api_key site.world)
