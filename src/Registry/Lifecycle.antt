-- ===== src/Registry/Lifecycle.antt =====
-- What versioning.py does to a document over its life: the version that an ingestion starts, and the
-- state that it leaves.
use mathlib.Core.Path.{subst}
use enterprise_doc_rag.Common.{
  ℕ, ◌+◌, ◌≤◌, ◌≡◌, refl, inl, inr, true, false, not, ◌&&◌, Option, none, some, arith, ◌==◌,
  string_eq, nat_eq, if◌then◌else◌, Bool-cases, Member, Member_of_update_where,
}
use enterprise_doc_rag.Common.Result.{ok}
use enterprise_doc_rag.Registry.{
  Status, is_completed, pending, failed, deleted, Document, DocumentVersion, Registry, FileInfo,
  VersionDecision, queued, processing, completed, has_key, has_id, find_document, first_ingestion,
  next_ingestion, create_document, start_first_version, start_next_version, start_version,
  is_unchanged, refresh_document, get_or_create_document,
}
use enterprise_doc_rag.Registry.History.{rows, open_rows}
use enterprise_doc_rag.Registry.Consistent.{
  IsConsistent, IsFresh, find_document-cases, find_version-cases, Member_of_found, found_of_Member,
  get_or_create_document-IsConsistent,
}

-- The state in which `get_or_create_document` hands document `d` on to be processed.
pub record IsStarted (file : FileInfo) (d : Document) (r : Registry) : Type 0 where
  pub stored : Member d r.documents
  pub key : has_key file.tenant_id file.source_path d ≡ true
  pub status : d.status ≡ processing
  pub hash : d.content_hash ≡ file.content_hash
  pub size : d.size_bytes ≡ file.size_bytes
  pub version_row : 1 ≤ open_rows d.id d.current_version r.versions

module _ (now : ℕ) (file : FileInfo) (r : Registry) where
  create_document-IsStarted :
      (new_id : ℕ)
      → let out = create_document new_id now file r in IsStarted file out.0.document out.1
  unfolding create_document
  create_document-IsStarted new_id = record {
    stored = inl refl;
    key = ground arith;
    status = refl;
    hash = refl;
    size = refl;
    version_row = ground arith;
  }

  module _ (d : Document) (m : Member d r.documents)
      (k : has_key file.tenant_id file.source_path d ≡ true) where
    start_version-IsStarted :
        (existing : Option DocumentVersion)
        → let out = start_version now file d r existing in IsStarted file out.0.document out.1
    unfolding start_version start_first_version start_next_version
    start_version-IsStarted none = record {
      stored =
          Member_of_update_where (has_id d.id) (first_ingestion file) d r.documents m
            (ground arith);
      key = k;
      status = refl;
      hash = refl;
      size = refl;
      version_row = ground arith;
    }
    start_version-IsStarted (some v) = record {
      stored =
          Member_of_update_where (has_id d.id) (next_ingestion file) d r.documents m (ground arith);
      key = k;
      status = refl;
      hash = refl;
      size = refl;
      version_row = ground arith;
    }

start_version_changed :
    (now : ℕ) (file : FileInfo) (d : Document) (r : Registry) (existing : Option DocumentVersion)
    → (start_version now file d r existing).0.changed ≡ true
unfolding start_version start_first_version start_next_version
start_version_changed now file d r none = refl
start_version_changed now file d r (some v) = refl

completed_of_test : (s : Status) → is_completed s ≡ true → s ≡ completed
completed_of_test completed h = refl
completed_of_test pending h = cc
completed_of_test queued h = cc
completed_of_test processing h = cc
completed_of_test failed h = cc
completed_of_test deleted h = cc

of_is_unchanged :
    (file : FileInfo) (d : Document)
    → is_unchanged file d ≡ true
    → (d.content_hash ≡ file.content_hash) × (d.status ≡ completed)
unfolding is_unchanged
of_is_unchanged file d h = (ground arith, completed_of_test d.status (ground arith))

-- What is known of a decision and the tables after it.
pub data Outcome (file : FileInfo) (r : Registry) (out : VersionDecision × Registry) : Type 0 where
  unchanged :
      out.0.changed ≡ false
      → out.1 ≡ r
      → find_document file.tenant_id file.source_path r ≡ ok (some out.0.document)
      → out.0.document.content_hash ≡ file.content_hash
      → out.0.document.status ≡ completed
      → Outcome file r out
  started : out.0.changed ≡ true → IsStarted file out.0.document out.1 → Outcome file r out

IsStarted-of_Outcome :
    (file : FileInfo) (r : Registry) (out : VersionDecision × Registry)
    → Outcome file r out
    → out.0.changed ≡ true
    → IsStarted file out.0.document out.1
IsStarted-of_Outcome file r out (unchanged e f g h s) t = cc
IsStarted-of_Outcome file r out (started e s) t = s

module _ (new_id now : ℕ) (file : FileInfo) (r : Registry) (c : IsConsistent r) where
  refresh_document-Outcome :
      (d : Document)
      → Member d r.documents
      → has_key file.tenant_id file.source_path d ≡ true
      → find_document file.tenant_id file.source_path r ≡ ok (some d)
      → (out : VersionDecision × Registry) × (refresh_document now file d r ≡ ok out)
        × Outcome file r out
  unfolding refresh_document
  refresh_document-Outcome d m k e = elim (Bool-cases (is_unchanged file d)) [
    | inl same ↦
        let (h, s) = of_is_unchanged file d same in rw same ((_, refl, unchanged refl refl e h s))
    | inr differs ↦ elim (find_version-cases now file r c d m) [
      | inl (f, z) ↦
          rw (differs, f)
            ((
              _,
              refl,
              started (start_version_changed now file d r none)
                  (start_version-IsStarted now file r d m k none),
            ))
      | inr (v, f, o) ↦
          rw (differs, f)
            ((
              _,
              refl,
              started (start_version_changed now file d r (some v))
                  (start_version-IsStarted now file r d m k (some v)),
            ))
    ]
  ]

  -- `get_or_create_document` on consistent tables has one of two outcomes. Either the stored row of
  -- the key has the file's hash and is completed, and nothing is changed; or the row of the key
  -- is being processed with the file's hash and size, and its current version has an open row.
  pub get_or_create_document-Outcome :
      (out : VersionDecision × Registry) × (get_or_create_document new_id now file r ≡ ok out)
      × Outcome file r out
  unfolding get_or_create_document
  get_or_create_document-Outcome = elim (find_document-cases file.tenant_id file.source_path r c) [
    | inl (e, z) ↦ rw e ((_, refl, started refl (create_document-IsStarted now file r new_id)))
    | inr (d, e, m, k) ↦ rw e (refresh_document-Outcome d m k e)
  ]

-- The version that a decision carries: an unchanged document keeps its version, and so does a
-- registered upload that has no version row yet; any other ingestion takes the next one.
abbrev pub version_after : FileInfo → Document → Registry → ℕ
version_after file d r =
    if is_unchanged file d
    then d.current_version
    else d.current_version + rows d.id d.current_version r.versions

module _ (new_id now : ℕ) (file : FileInfo) (r : Registry) (c : IsConsistent r) where
  refresh_document-version :
      (d : Document)
      → Member d r.documents
      → (out : VersionDecision × Registry) × (refresh_document now file d r ≡ ok out)
        × (out.0.document.id ≡ d.id)
        × (out.0.document.current_version ≡ version_after file d r)
        × (out.0.is_new
            ≡ (not (is_unchanged file d) && (rows d.id d.current_version r.versions == 0)))
  unfolding refresh_document start_version start_first_version start_next_version
  refresh_document-version d m = elim (Bool-cases (is_unchanged file d)) [
    | inl same ↦ rw same ((_, refl, refl, refl, refl))
    | inr differs ↦ elim (find_version-cases now file r c d m) [
      | inl (f, z) ↦ rw (differs, f) ((_, refl, refl, omega (arith, z), ground (arith, z)))
      | inr (v, f, o) ↦ rw (differs, f) ((_, refl, refl, omega (arith, o), ground (arith, o)))
    ]
  ]

  -- For a document of the registry the decision is about that document, at `version_after`, and
  -- counts as new exactly when it is changed and had no version row.
  pub get_or_create_document-version :
      (d : Document)
      → find_document file.tenant_id file.source_path r ≡ ok (some d)
      → (out : VersionDecision × Registry) × (get_or_create_document new_id now file r ≡ ok out)
        × (out.0.document.id ≡ d.id)
        × (out.0.document.current_version ≡ version_after file d r)
        × (out.0.is_new
            ≡ (not (is_unchanged file d) && (rows d.id d.current_version r.versions == 0)))
  unfolding get_or_create_document
  get_or_create_document-version d found =
      rw found
        (refresh_document-version d (Member_of_found file.tenant_id file.source_path r d c found).0)

-- The outcome of a call that is known to have returned `out`.
module _ (new_id now : ℕ) (file : FileInfo) (r : Registry) (c : IsConsistent r) where
  pub IsConsistent-of_ok :
      IsFresh new_id r
      → (out : VersionDecision × Registry) → get_or_create_document new_id now file r ≡ ok out
      → IsConsistent out.1
  IsConsistent-of_ok fresh out e =
      let (x, f, c') = get_or_create_document-IsConsistent now file r c new_id fresh in
      let same : x ≡ out = cc (e, f) in subst (λ y. IsConsistent y.1) same c'

  pub IsStarted-of_changed :
      (out : VersionDecision × Registry)
      → get_or_create_document new_id now file r ≡ ok out
      → out.0.changed ≡ true
      → IsStarted file out.0.document out.1
  IsStarted-of_changed out e h =
      let (x, f, o) = get_or_create_document-Outcome new_id now file r c in
      let same : x ≡ out = cc (e, f) in
      IsStarted-of_Outcome file r out (subst (Outcome file r) same o) h

  -- A document that is not changed is stored, completed, with the contents of the file.
  pub stored-of_unchanged :
      (out : VersionDecision × Registry)
      → get_or_create_document new_id now file r ≡ ok out
      → out.0.changed ≡ false
      → (out.1 ≡ r)
        × (find_document file.tenant_id file.source_path r ≡ ok (some out.0.document))
        × (out.0.document.content_hash ≡ file.content_hash)
        × (out.0.document.status ≡ completed)
  stored-of_unchanged out e h =
      let (x, f, o) = get_or_create_document-Outcome new_id now file r c in
      let same : x ≡ out = cc (e, f) in
      elim (subst (Outcome file r) same o) [
        | unchanged k t found hash done ↦ (t, found, hash, done)
        | started k s ↦ absurd (cc (h, k))
      ]

  -- A completed row with the contents of the file is unchanged.
  pub unchanged_of_completed :
      (d : Document)
      → Member d r.documents
      → has_key file.tenant_id file.source_path d ≡ true
      → d.content_hash ≡ file.content_hash
      → d.status ≡ completed
      → get_or_create_document new_id now file r
        ≡ ok (record { document = d; is_new = false; changed = false }, r)
  unfolding get_or_create_document refresh_document is_unchanged
  unchanged_of_completed d m k h s =
      rw (found_of_Member file.tenant_id file.source_path r d c m k) (ground arith)
