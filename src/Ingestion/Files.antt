-- ===== src/Ingestion/Files.antt =====
-- ingestion/pipeline.py: what an ingestion reads of a file, and what it makes of it before anything
-- is stored.
use Prim.Native.Char.{code}
use enterprise_doc_rag.Common.{
  ℕ, String, Option, none, some, List, [], ◌∷◌, ◌==◌, string_eq, nat_eq, ◌≡◌, Member, if◌then◌else◌,
}
use enterprise_doc_rag.Common.Result.{Result, ok}
use enterprise_doc_rag.Registry.{Document, FileInfo}
use enterprise_doc_rag.Ingestion.Metadata.{ResolvedMetadata}
use enterprise_doc_rag.Ingestion.Stores.{FileMetadata, Node}

pub data Loader : Type 0 where
  load_pdf load_docx load_pptx : Loader

-- `LOADERS.get(ext)`
abbrev pub loader_of : String → Option Loader
loader_of ext =
    if ext == ".pdf"
    then some load_pdf
    else if ext == ".docx"
    then some load_docx
    else if ext == ".pptx"
    then some load_pptx
    else none

pub record SourceFile (Content : Type 0) : Type 0 where
  pub relative_path : String
  pub name : String
  pub suffix : String
  -- `hash_file` and the size of `stat_file`.
  pub read : Result (String × ℕ)
  pub load : Loader → Result (List Content)

pub data IngestStatus : Type 0 where
  unchanged ingested skipped_unsupported : IngestStatus

pub record IngestResult : Type 0 where
  pub source_path : String
  pub status : IngestStatus
  pub num_leaf_chunks : ℕ
  pub document_id : Option ℕ

-- `ext.lstrip(".")`
abbrev pub lstrip_dots : String → String
lstrip_dots String.[] = String.[]
lstrip_dots (String.◌∷◌ c text) =
    let rest = lstrip_dots text in if code c == 46 then rest else String.◌∷◌ c text

-- `HierarchicalNodeParser` and `get_leaf_nodes`: a node has the metadata of its document, and the
-- leaves are nodes.
pub record NodeParser (Content : Type 0) : Type 0 where
  pub build_hierarchical_nodes :
      List (Node Content) → Result (List (Node Content) × List (Node Content))
  pub all-metadata :
      (documents all leaf : List (Node Content))
      → build_hierarchical_nodes documents ≡ ok (all, leaf)
      → (n : Node Content) → Member n all
      → (d : Node Content) × Member d documents × (n.metadata ≡ d.metadata)
  pub leaf-all :
      (documents all leaf : List (Node Content))
      → build_hierarchical_nodes documents ≡ ok (all, leaf)
      → (n : Node Content) → Member n leaf
      → Member n all

abbrev pub file_info :
    {Content : Type 0}
    → String
    → String
    → SourceFile Content
    → ResolvedMetadata
    → String
    → ℕ
    → FileInfo
file_info root ext file resolved content_hash size_bytes = record {
  tenant_id = resolved.tenant_id;
  source_path = file.relative_path;
  ingestion_root = root;
  file_name = file.name;
  file_type = lstrip_dots ext;
  department = resolved.department;
  doc_type = resolved.doc_type;
  tags = resolved.tags;
  content_hash = content_hash;
  size_bytes = size_bytes;
}

-- `doc.metadata.update(…)`
abbrev pub file_metadata : FileInfo → Document → FileMetadata
file_metadata info d = record {
  tenant_id = info.tenant_id;
  department = info.department;
  doc_type = info.doc_type;
  tags = info.tags;
  source_file = info.source_path;
  content_hash = info.content_hash;
  document_id = d.id;
  document_version = d.current_version;
}

abbrev pub tag_all : {Content : Type 0} → FileMetadata → List Content → List (Node Content)
tag_all metadata [] = []
tag_all metadata (content ∷ contents) =
    record { content = content; metadata = metadata } ∷ tag_all metadata contents
