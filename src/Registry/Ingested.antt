-- ===== src/Registry/Ingested.antt =====
-- Documents whose current version has a row: those that an ingestion has started on.
use mathlib.Core.Path.{subst}
use enterprise_doc_rag.Common.{
  ℕ, ◌≤◌, ◌≡◌, refl, ap, ◌∙◌, inl, inr, String, true, false, Option, none, some, arith, nat_eq,
  string_eq, Bool-cases, update_where, Member, Member_of_update_where, Member-of_update_where_other,
}
use enterprise_doc_rag.Common.Result.{ok, first_returned}
use enterprise_doc_rag.Registry.{
  has_key, Status, Document, DocumentVersion, Registry, FileInfo, VersionDecision, has_id,
  find_document, update_document, finalize, with_status, failed, first_ingestion, next_ingestion,
  create_document, start_first_version, start_next_version, start_version, is_unchanged,
  refresh_document, get_or_create_document, finalize_document, find_version, finalize_row,
  mark_found, requeue, register_found, register_queued_upload, mark_document_failed,
}
use enterprise_doc_rag.Registry.History.{rows, open_rows-le-rows, rows-supersede}
use enterprise_doc_rag.Registry.Consistent.{
  IsConsistent, IsFresh, ne_of_fresh, eq_of_id, find_document-cases, find_version-cases,
}
use enterprise_doc_rag.Registry.Updates.{rows-count_chunks}
use enterprise_doc_rag.Registry.Lifecycle.{IsStarted}

pub record IsIngested (r : Registry) (i : ℕ) : Type 0 where
  pub document : Document
  pub stored : Member document r.documents
  pub same_id : document.id ≡ i
  pub version_row : 1 ≤ rows document.id document.current_version r.versions

pub IsIngested-of_started :
    (file : FileInfo) (d : Document) (r : Registry) → IsStarted file d r → IsIngested r d.id
IsIngested-of_started file d r s = record {
  document = d;
  stored = s.stored;
  same_id = refl;
  version_row = omega (arith, s.version_row, open_rows-le-rows d.id d.current_version r.versions);
}

-- Attributes of `d` change, not its id, and the new version of `d` has a row.
IsIngested-update :
    (r : Registry) (d : Document) (f : Document → Document) (r' : Registry)
    → r'.documents ≡ update_where (has_id d.id) f r.documents
    → ((x : Document) → (f x).id ≡ x.id)
    → ((x : Document)
        → x.id ≡ d.id
        → Member x r.documents
        → 1 ≤ rows x.id x.current_version r.versions
        → 1 ≤ rows (f x).id (f x).current_version r'.versions)
    → ((i n : ℕ) → rows i n r.versions ≤ rows i n r'.versions)
    → (i : ℕ) → IsIngested r i
    → IsIngested r' i
IsIngested-update r d f r' docs ids own others i g = elim (Bool-cases (has_id d.id g.document)) [
  | inl here ↦ record {
    document = f g.document;
    stored = rw docs (Member_of_update_where (has_id d.id) f g.document r.documents g.stored here);
    same_id = ids g.document ∙ g.same_id;
    version_row = own g.document (ground arith) g.stored g.version_row;
  }
  | inr other ↦ record {
    document = g.document;
    stored =
        rw docs
          (Member-of_update_where_other (has_id d.id) f g.document r.documents g.stored other);
    same_id = g.same_id;
    version_row = omega (arith, g.version_row, others g.document.id g.document.current_version);
  }
]

module _ (r : Registry) (c : IsConsistent r) where
  module _ (now : ℕ) (file : FileInfo) (d : Document) (m : Member d r.documents) where
    start_version-IsIngested :
        (existing : Option DocumentVersion) (i : ℕ)
        → IsIngested r i
        → IsIngested (start_version now file d r existing).1 i
    unfolding start_version start_first_version start_next_version nat_eq
    start_version-IsIngested none =
        IsIngested-update r d (first_ingestion file) _ refl (λ x. refl) (λ x e m h. ground arith)
          (λ i n. ground arith)
    start_version-IsIngested (some v) =
        IsIngested-update r d (next_ingestion file) _ refl (λ x. refl)
          (λ x e n h.
            let same : x ≡ d = eq_of_id r c d x m n (ground arith) in rw same (ground arith))
          (λ i n. ground (arith, rows-supersede i n d.id d.current_version now r.versions))

-- What a call that returned has done.
data Decided (new_id now : ℕ) (file : FileInfo) (r : Registry) (out : VersionDecision × Registry)
    : Type 0 where
  created : create_document new_id now file r ≡ out → Decided new_id now file r out
  same_contents :
      (d : Document)
      → (record { document = d; is_new = false; changed = false }, r) ≡ out
      → Decided new_id now file r out
  started_version :
      (d : Document)
      → Member d r.documents
      → has_key file.tenant_id file.source_path d ≡ true
      → (existing : Option DocumentVersion)
      → (existing ≡ none → rows d.id d.current_version r.versions ≡ 0)
      → start_version now file d r existing ≡ out
      → Decided new_id now file r out

module _ (r : Registry) (c : IsConsistent r) (new_id now : ℕ) (file : FileInfo)
    (out : VersionDecision × Registry) (h : get_or_create_document new_id now file r ≡ ok out) where
  Decided-of_ok : Decided new_id now file r out
  unfolding get_or_create_document refresh_document
  Decided-of_ok = elim (find_document-cases file.tenant_id file.source_path r c) [
    | inl (e, z) ↦ created (cc (rw e at h))
    | inr (d, e, m, k) ↦ elim (Bool-cases (is_unchanged file d)) [
      | inl same ↦ same_contents d (cc (rw (e, same) at h))
      | inr differs ↦ elim (find_version-cases now file r c d m) [
        | inl (f, z) ↦ started_version d m k none (λ q. z) (cc (rw (e, differs, f) at h))
        | inr (v, f, o) ↦ started_version d m k (some v) (λ q. cc) (cc (rw (e, differs, f) at h))
      ]
    ]
  ]

  -- No ingestion loses a document,
  pub get_or_create_document-IsIngested : (i : ℕ) → IsIngested r i → IsIngested out.1 i
  unfolding create_document
  get_or_create_document-IsIngested i g = elim Decided-of_ok [
    | created e ↦
        subst (λ x. IsIngested x.1 i) e
          (record {
            document = g.document;
            stored = inr g.stored;
            same_id = g.same_id;
            version_row = omega (arith, g.version_row);
          })
    | same_contents d e ↦ subst (λ x. IsIngested x.1 i) e g
    | started_version d m k existing z e ↦
        subst (λ x. IsIngested x.1 i) e (start_version-IsIngested r c now file d m existing i g)
  ]

  -- and one that takes a document as new has found it not ingested.
  pub new-IsIngested : IsFresh new_id r → out.0.is_new ≡ true → ¬ IsIngested r out.0.document.id
  unfolding create_document start_version start_first_version start_next_version
  new-IsIngested fresh = elim Decided-of_ok [
    | created e ↦
        subst (λ x. x.0.is_new ≡ true → ¬ IsIngested r x.0.document.id) e
          (λ new g. ne_of_fresh new_id r fresh g.document g.stored g.same_id)
    | same_contents d e ↦
        subst (λ x. x.0.is_new ≡ true → ¬ IsIngested r x.0.document.id) e (λ new. cc)
    | started_version d m k none z e ↦
        subst (λ x. x.0.is_new ≡ true → ¬ IsIngested r x.0.document.id) e
          (λ new g.
            let same : g.document ≡ d =
              eq_of_id r c d g.document m g.stored (ground (arith, g.same_id)) in
            let one : 1 ≤ rows d.id d.current_version r.versions = rw same at g.version_row in
            omega (arith, z refl))
    | started_version d m k (some v) z e ↦
        subst (λ x. x.0.is_new ≡ true → ¬ IsIngested r x.0.document.id) e (λ new. cc)
  ]

-- A started version leaves the rows of other documents.
start_version_spares :
    (now : ℕ) (file : FileInfo) (d : Document) (r : Registry) (existing : Option DocumentVersion)
    (x : Document)
    → Member x r.documents
    → has_id d.id x ≡ false
    → Member x (start_version now file d r existing).1.documents
unfolding start_version start_first_version start_next_version
start_version_spares now file d r none x =
    Member-of_update_where_other (has_id d.id) (first_ingestion file) x r.documents
start_version_spares now file d r (some v) x =
    Member-of_update_where_other (has_id d.id) (next_ingestion file) x r.documents

-- A row with another key has another id.
pub has_id-of_other_key :
    (r : Registry)
    → IsConsistent r
    → (t p : String) (d x : Document) → Member d r.documents
    → has_key t p d ≡ true
    → Member x r.documents
    → has_key t p x ≡ false
    → has_id d.id x ≡ false
has_id-of_other_key r c t p d x m k n other = elim (Bool-cases (has_id d.id x)) [
  | inl same ↦ absurd (cc (k, other, ap (has_key t p) (eq_of_id r c d x m n same)))
  | inr differs ↦ differs
]

-- A call leaves the rows of other keys.
pub get_or_create_document_spares :
    (r : Registry)
    → IsConsistent r
    → (new_id now : ℕ) (file : FileInfo) (out : VersionDecision × Registry)
    → get_or_create_document new_id now file r ≡ ok out
    → (x : Document) → Member x r.documents
    → has_key file.tenant_id file.source_path x ≡ false
    → Member x out.1.documents
unfolding create_document
get_or_create_document_spares r c new_id now file out h x m other =
    elim (Decided-of_ok r c new_id now file out h) [
      | created e ↦ subst (λ y. Member x y.1.documents) e (inr m)
      | same_contents d e ↦ subst (λ y. Member x y.1.documents) e m
      | started_version d n k existing z e ↦
          subst (λ y. Member x y.1.documents) e
            (start_version_spares now file d r existing x m
              (has_id-of_other_key r c file.tenant_id file.source_path d x n k m other))
    ]

-- The calls that end an ingestion keep the documents ingested.
finalize_row-IsIngested :
    (r : Registry) (d : Document) (k : ℕ) (found : Option DocumentVersion) (i : ℕ)
    → IsIngested r i
    → IsIngested (finalize_row k d (update_document d.id (finalize k) r) found) i
unfolding finalize_row
finalize_row-IsIngested r d k none =
    IsIngested-update r d (finalize k) _ refl (λ x. refl) (λ x e m h. h) (λ i n. omega arith)
finalize_row-IsIngested r d k (some v) =
    IsIngested-update r d (finalize k) _ refl (λ x. refl)
      (λ x e m h.
        rw (rows-count_chunks x.id x.current_version d.id d.current_version k r.versions) h)
      (λ i n. omega (arith, rows-count_chunks i n d.id d.current_version k r.versions))

pub finalize_document-IsIngested :
    (r : Registry) (d : Document) (k : ℕ) (r' : Registry)
    → finalize_document d k r ≡ ok r'
    → (i : ℕ) → IsIngested r i
    → IsIngested r' i
unfolding finalize_document
finalize_document-IsIngested r d k r' h i g =
    let (found, e, f) =
      first_returned _ (find_version d.id d.current_version (update_document d.id (finalize k) r))
        h in
    let same : finalize_row k d (update_document d.id (finalize k) r) found ≡ r' = cc e in
    subst (λ x. IsIngested x i) same (finalize_row-IsIngested r d k found i g)

pub mark_document_failed-IsIngested :
    (r : Registry) (t p : String) (r' : Registry)
    → mark_document_failed t p r ≡ ok r'
    → (i : ℕ) → IsIngested r i
    → IsIngested r' i
unfolding mark_document_failed mark_found
mark_document_failed-IsIngested r t p r' h i g =
    let (found, e, f) = first_returned _ (find_document t p r) h in go found (cc e)
  where
    go : (found : Option Document) → mark_found r found ≡ r' → IsIngested r' i
    go none same = subst (λ x. IsIngested x i) same g
    go (some d) same =
        subst (λ x. IsIngested x i) same
          (IsIngested-update r d (with_status failed) _ refl (λ x. refl) (λ x e m h. h)
            (λ j n. omega arith) i g)

pub with_status-IsIngested :
    (r : Registry) (d : Document) (s : Status) (i : ℕ)
    → IsIngested r i
    → IsIngested (update_document d.id (with_status s) r) i
with_status-IsIngested r d s =
    IsIngested-update r d (with_status s) _ refl (λ x. refl) (λ x e m h. h) (λ i n. omega arith)

pub register_queued_upload-IsIngested :
    (r : Registry) (new_id now : ℕ) (file : FileInfo) (r' : Registry)
    → register_queued_upload new_id now file r ≡ ok r'
    → (i : ℕ) → IsIngested r i
    → IsIngested r' i
unfolding register_queued_upload register_found
register_queued_upload-IsIngested r new_id now file r' h i g =
    let (found, e, f) = first_returned _ (find_document file.tenant_id file.source_path r) h in
    go found (cc e)
  where
    go : (found : Option Document) → register_found new_id now file r found ≡ r' → IsIngested r' i
    go none same =
        subst (λ x. IsIngested x i) same
          (record {
            document = g.document;
            stored = inr g.stored;
            same_id = g.same_id;
            version_row = g.version_row;
          })
    go (some d) same =
        subst (λ x. IsIngested x i) same
          (IsIngested-update r d (requeue file) _ refl (λ x. refl) (λ x e m h. h)
            (λ j n. omega arith) i g)
