-- ===== src/Registry/Tests.antt =====
-- Runs of the registry on small tables, and its theorems at concrete files.
use enterprise_doc_rag.Common.{
  ◌≡◌, refl, none, some, [], ◌∷◌, true, false, ◌&&◌, not, ◌==◌, string_eq, nat_eq,
}
use enterprise_doc_rag.Common.Result.{ok, ◌>>=◌}
use enterprise_doc_rag.Registry.{
  Registry, FileInfo, Document, VersionDecision, find_document, is_unchanged, finalize,
  new_document, processing, create_document, get_or_create_document, register_queued_upload,
  finalize_document,
}
use enterprise_doc_rag.Registry.Empty.{no_rows, no_rows-IsConsistent, no_rows-IsFresh}
use enterprise_doc_rag.Registry.History.{rows}
use enterprise_doc_rag.Registry.Consistent.{
  IsConsistent, IsFresh, Kept, create_document-Kept, get_or_create_document-IsConsistent,
}
use enterprise_doc_rag.Registry.Lifecycle.{
  Outcome, version_after, get_or_create_document-Outcome, get_or_create_document-version,
}
use enterprise_doc_rag.Registry.Repeated.{upload_again, ingest_again}

abbrev handbook : FileInfo
handbook = record {
  tenant_id = "acme";
  source_path = "acme/handbook.pdf";
  ingestion_root = "/uploads";
  file_name = "handbook.pdf";
  file_type = "pdf";
  department = some "engineering";
  doc_type = none;
  tags = [];
  content_hash = "h1";
  size_bytes = 100;
}

abbrev edited : FileInfo
edited = record handbook { content_hash = "h2"; size_bytes = 120 }

-- One document at its first version, under id 7.
abbrev stored : Registry
stored = unfold create_document in (create_document 7 1 handbook no_rows).1

abbrev row : Document
row = new_document 7 1 processing handbook

stored-IsConsistent : IsConsistent stored
unfolding create_document
stored-IsConsistent =
    create_document-Kept 1 handbook no_rows no_rows-IsConsistent 7 (no_rows-IsFresh 7) refl

stored-IsFresh : IsFresh 8 stored
unfolding create_document nat_eq
stored-IsFresh = record { no_document = refl; no_version = λ n. refl }

stored_found : find_document "acme" "acme/handbook.pdf" stored ≡ ok (some row)
unfolding create_document string_eq
stored_found = refl

stored_rows : rows 7 1 stored.versions ≡ 1
unfolding create_document nat_eq
stored_rows = refl

-- The second ingestion of an edited file supersedes the first version.
edited_run :
    get_or_create_document 8 5 edited stored
    ≡ ok (
      record {
        document = record row { current_version = 2; content_hash = "h2"; size_bytes = 120 };
        is_new = false;
        changed = true;
      },
      record {
        documents = record row { current_version = 2; content_hash = "h2"; size_bytes = 120 } ∷ [];
        versions =
            record {
              document_id = 7;
              version = 2;
              content_hash = "h2";
              size_bytes = 120;
              num_chunks = 0;
              ingested_at = 5;
              superseded_at = none;
            }
            ∷ record {
              document_id = 7;
              version = 1;
              content_hash = "h1";
              size_bytes = 100;
              num_chunks = 0;
              ingested_at = 1;
              superseded_at = some 5;
            }
            ∷ [];
      },
    )
unfolding get_or_create_document string_eq nat_eq
edited_run = refl

get_or_create_document-IsConsistent_example : Kept (get_or_create_document 8 5 edited stored)
get_or_create_document-IsConsistent_example =
    get_or_create_document-IsConsistent 5 edited stored stored-IsConsistent 8 stored-IsFresh

get_or_create_document-Outcome_example :
    (out : VersionDecision × Registry) × (get_or_create_document 8 5 edited stored ≡ ok out)
    × Outcome edited stored out
get_or_create_document-Outcome_example =
    get_or_create_document-Outcome 8 5 edited stored stored-IsConsistent

get_or_create_document-version_example :
    (out : VersionDecision × Registry) × (get_or_create_document 8 5 edited stored ≡ ok out)
    × (out.0.document.id ≡ 7)
    × (out.0.document.current_version ≡ version_after edited row stored)
    × (out.0.is_new ≡ (not (is_unchanged edited row) && (rows 7 1 stored.versions == 0)))
get_or_create_document-version_example =
    get_or_create_document-version 8 5 edited stored stored-IsConsistent row stored_found

upload_again_example :
    (out : VersionDecision × Registry) × ((register_queued_upload 8 2 handbook stored
        >>= get_or_create_document 9 3 handbook)
      ≡ ok out)
    × (out.0.document.id ≡ 7)
    × (out.0.document.current_version ≡ 2)
    × (out.0.is_new ≡ false)
upload_again_example =
    upload_again 8 9 2 3 handbook stored stored-IsConsistent row stored_found stored_rows

first_run :
    get_or_create_document 7 1 handbook no_rows
    ≡ ok (record { document = row; is_new = true; changed = true }, stored)
unfolding get_or_create_document
first_run = refl

ingest_again_example :
    (r' : Registry) × (finalize_document row 12 stored ≡ ok r')
    × (get_or_create_document 9 2 handbook r'
        ≡ ok (record { document = finalize 12 row; is_new = false; changed = false }, r'))
ingest_again_example =
    ingest_again 7 9 1 2 handbook handbook no_rows no_rows-IsConsistent (no_rows-IsFresh 7) refl
      refl refl (record { document = row; is_new = true; changed = true }, stored) first_run refl 12
