-- ===== src/Registry.antt =====
-- The document registry: models/document.py and ingestion/versioning.py. A table is the list of its
-- rows. `documents` has a row for each source file, `document_versions` one for each ingested state
-- of it. The rows' `updated_at`, and the primary key of a version row, are left out: no code of
-- the registry reads them. The id that Postgres draws for a new row is an argument, and so is the
-- time of the call.
pub mod History
pub mod Consistent
pub mod Updates
pub mod Marked
pub mod Lifecycle
pub mod Repeated
pub mod Ingested
pub mod Empty
pub mod Drawn
mod Tests
use enterprise_doc_rag.Common.{
  ℕ, ◌+◌, String, Bool, true, false, ◌&&◌, Option, none, some, List, ◌∷◌, ◌==◌, string_eq, nat_eq,
  if◌then◌else◌, select, update_where,
}
use enterprise_doc_rag.Common.Result.{Result, ok, err, ◌>>=◌, scalar_one_or_none}

pub data Status : Type 0 where
  pending queued processing completed failed deleted : Status

abbrev pub is_completed : Status → Bool
is_completed completed = true
is_completed _ = false

abbrev pub is_deleted : Status → Bool
is_deleted deleted = true
is_deleted _ = false

pub record Document : Type 0 where
  pub id : ℕ
  pub tenant_id : String
  pub source_path : String
  pub ingestion_root : String
  pub file_name : String
  pub file_type : String
  pub current_version : ℕ
  pub content_hash : String
  pub size_bytes : ℕ
  pub department : Option String
  pub doc_type : Option String
  pub tags : Option (List String)
  pub status : Status
  pub num_chunks : ℕ
  pub created_at : ℕ

pub record DocumentVersion : Type 0 where
  pub document_id : ℕ
  pub version : ℕ
  pub content_hash : String
  pub size_bytes : ℕ
  pub num_chunks : ℕ
  pub ingested_at : ℕ
  pub superseded_at : Option ℕ

pub record Registry : Type 0 where
  pub documents : List Document
  pub versions : List DocumentVersion

-- The keyword arguments that `get_or_create_document` and `register_queued_upload` share.
pub record FileInfo : Type 0 where
  pub tenant_id : String
  pub source_path : String
  pub ingestion_root : String
  pub file_name : String
  pub file_type : String
  pub department : Option String
  pub doc_type : Option String
  pub tags : List String
  pub content_hash : String
  pub size_bytes : ℕ

pub record VersionDecision : Type 0 where
  pub document : Document
  pub is_new : Bool
  pub changed : Bool

-- The `where` clauses of the queries.
abbrev pub has_key : String → String → Document → Bool
has_key tenant path d = d.tenant_id == tenant && d.source_path == path

abbrev pub has_id : ℕ → Document → Bool
has_id i d = d.id == i

abbrev pub is_row : ℕ → ℕ → DocumentVersion → Bool
is_row i n v = v.document_id == i && v.version == n

abbrev pub find_document : String → String → Registry → Result (Option Document)
find_document tenant path r = scalar_one_or_none (select (has_key tenant path) r.documents)

abbrev pub find_version : ℕ → ℕ → Registry → Result (Option DocumentVersion)
find_version i n r = scalar_one_or_none (select (is_row i n) r.versions)

-- Attributes assigned on the row object of document `i`, and `session.add` of a version row.
abbrev pub update_document : ℕ → (Document → Document) → Registry → Registry
update_document i f r = record r { documents = update_where (has_id i) f r.documents }

abbrev pub add_version : DocumentVersion → Registry → Registry
add_version v r = record r { versions = v ∷ r.versions }

abbrev pub new_document : ℕ → ℕ → Status → FileInfo → Document
new_document new_id now status file = record {
  id = new_id;
  tenant_id = file.tenant_id;
  source_path = file.source_path;
  ingestion_root = file.ingestion_root;
  file_name = file.file_name;
  file_type = file.file_type;
  current_version = 1;
  content_hash = file.content_hash;
  size_bytes = file.size_bytes;
  department = file.department;
  doc_type = file.doc_type;
  tags = some file.tags;
  status = status;
  num_chunks = 0;
  created_at = now;
}

abbrev pub version_row : ℕ → ℕ → ℕ → FileInfo → DocumentVersion
version_row i n now file = record {
  document_id = i;
  version = n;
  content_hash = file.content_hash;
  size_bytes = file.size_bytes;
  num_chunks = 0;
  ingested_at = now;
  superseded_at = none;
}

-- The row of the current version has none yet: the first ingestion of a row that
-- `register_queued_upload` created. The version stays.
abbrev pub first_ingestion : FileInfo → Document → Document
first_ingestion file d = record d {
  status = processing;
  content_hash = file.content_hash;
  size_bytes = file.size_bytes;
}

abbrev pub next_ingestion : FileInfo → Document → Document
next_ingestion file d = record d {
  current_version = d.current_version + 1;
  content_hash = file.content_hash;
  size_bytes = file.size_bytes;
  department = file.department;
  doc_type = file.doc_type;
  tags = some file.tags;
  status = processing;
}

abbrev pub supersede : ℕ → DocumentVersion → DocumentVersion
supersede now v = record v { superseded_at = some now }

-- The branches of `get_or_create_document`, in the order of its early returns.
pub create_document : ℕ → ℕ → FileInfo → Registry → VersionDecision × Registry
create_document new_id now file r =
    let d = new_document new_id now processing file in
    (
      record { document = d; is_new = true; changed = true },
      add_version (version_row new_id 1 now file) (record r { documents = d ∷ r.documents }),
    )

start_first_version : ℕ → FileInfo → Document → Registry → VersionDecision × Registry
start_first_version now file d r = (
  record { document = first_ingestion file d; is_new = true; changed = true },
  add_version (version_row d.id d.current_version now file)
      (update_document d.id (first_ingestion file) r),
)

start_next_version : ℕ → FileInfo → Document → Registry → VersionDecision × Registry
start_next_version now file d r = (
  record { document = next_ingestion file d; is_new = false; changed = true },
  add_version (version_row d.id (d.current_version + 1) now file)
      (record (update_document d.id (next_ingestion file) r) {
        versions = update_where (is_row d.id d.current_version) (supersede now) r.versions;
      }),
)

start_version :
    ℕ → FileInfo → Document → Registry → Option DocumentVersion → VersionDecision × Registry
start_version now file d r none = start_first_version now file d r
start_version now file d r (some existing_version) = start_next_version now file d r

pub is_unchanged : FileInfo → Document → Bool
is_unchanged file d = d.content_hash == file.content_hash && is_completed d.status

refresh_document : ℕ → FileInfo → Document → Registry → Result (VersionDecision × Registry)
refresh_document now file d r =
    if is_unchanged file d
    then ok (record { document = d; is_new = false; changed = false }, r)
    else (do
      existing_version ← find_version d.id d.current_version r
      ok (start_version now file d r existing_version))

decide : ℕ → ℕ → FileInfo → Registry → Option Document → Result (VersionDecision × Registry)
decide new_id now file r none = ok (create_document new_id now file r)
decide new_id now file r (some d) = refresh_document now file d r

unfoldable pub get_or_create_document :
    ℕ → ℕ → FileInfo → Registry → Result (VersionDecision × Registry)
unfolding create_document start_first_version start_next_version start_version is_unchanged
    refresh_document decide
get_or_create_document new_id now file r = do
  document ← find_document file.tenant_id file.source_path r
  decide new_id now file r document

-- The row of an upload whose file is known already.
abbrev pub requeue : FileInfo → Document → Document
requeue file d = record d {
  status = queued;
  content_hash = file.content_hash;
  size_bytes = file.size_bytes;
  department = file.department;
  doc_type = file.doc_type;
  tags = some file.tags;
}

register_found : ℕ → ℕ → FileInfo → Registry → Option Document → Registry
register_found new_id now file r none = record r {
  documents = new_document new_id now queued file ∷ r.documents;
}
register_found new_id now file r (some d) = update_document d.id (requeue file) r

unfoldable pub register_queued_upload : ℕ → ℕ → FileInfo → Registry → Result Registry
unfolding register_found
register_queued_upload new_id now file r = do
  document ← find_document file.tenant_id file.source_path r
  ok (register_found new_id now file r document)

abbrev pub with_status : Status → Document → Document
with_status s d = record d { status = s }

mark_found : Registry → Option Document → Registry
mark_found r none = r
mark_found r (some d) = update_document d.id (with_status failed) r

unfoldable pub mark_document_failed : String → String → Registry → Result Registry
unfolding mark_found
mark_document_failed tenant path r = do
  document ← find_document tenant path r
  ok (mark_found r document)

abbrev pub finalize : ℕ → Document → Document
finalize num_chunks d = record d { num_chunks = num_chunks; status = completed }

abbrev pub count_chunks : ℕ → DocumentVersion → DocumentVersion
count_chunks num_chunks v = record v { num_chunks = num_chunks }

finalize_row : ℕ → Document → Registry → Option DocumentVersion → Registry
finalize_row num_chunks d r none = r
finalize_row num_chunks d r (some version_row) = record r {
  versions = update_where (is_row d.id d.current_version) (count_chunks num_chunks) r.versions;
}

unfoldable pub finalize_document : Document → ℕ → Registry → Result Registry
unfolding finalize_row
finalize_document d num_chunks r = do
  let r' = update_document d.id (finalize num_chunks) r
  found ← find_version d.id d.current_version r'
  ok (finalize_row num_chunks d r' found)
