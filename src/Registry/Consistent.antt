-- ===== src/Registry/Consistent.antt =====
-- The invariant of the registry, and that each operation of versioning.py keeps it.
use mathlib.Core.Path.{subst, subst₂}
use enterprise_doc_rag.Common.{
  ℕ, ◌≤◌, ◌≡◌, refl, sym, ◌≢◌, ◌⊎◌, inl, inr, String, true, none, some, List, ◌∷◌, arith, nat_eq,
  string_eq, Bool-cases, count_by, update_where, count_by-update_where, Member, Member-update_where,
  scalar-Member, eq_of_count_by, count_by-pos_of_Member,
}
use enterprise_doc_rag.Common.Result.{Result, ok}
use enterprise_doc_rag.Registry.{
  Document, DocumentVersion, Registry, FileInfo, VersionDecision, has_key, has_id, is_row,
  new_document, version_row, processing, find_document, find_version, update_document,
  first_ingestion, next_ingestion, create_document, start_first_version, start_next_version,
  start_version, is_unchanged, refresh_document, get_or_create_document,
}
use enterprise_doc_rag.Registry.History.{
  History, rows, History-first, History-other, History-supersede_other, History-fill, History-next,
}

pub record IsConsistent (r : Registry) : Type 0 where
  pub unique_id : (i : ℕ) → count_by (has_id i) r.documents ≤ 1
  pub unique_key : (t p : String) → count_by (has_key t p) r.documents ≤ 1
  pub history : (d : Document) → Member d r.documents → History d.id d.current_version r.versions

-- What Postgres promises of the id that it draws for a new row.
pub record IsFresh (i : ℕ) (r : Registry) : Type 0 where
  pub no_document : count_by (has_id i) r.documents ≡ 0
  pub no_version : (n : ℕ) → rows i n r.versions ≡ 0

pub ne_of_fresh :
    (i : ℕ) (r : Registry) → IsFresh i r → (d : Document) → Member d r.documents → d.id ≢ i
ne_of_fresh i r f d m e =
    absurd (
      omega
        (arith, count_by-pos_of_Member (has_id i) d r.documents m (ground arith), f.no_document))

-- A query by key finds no document, or a row with that key.
pub find_document-cases :
    (t p : String) (r : Registry)
    → IsConsistent r
    → ((find_document t p r ≡ ok none) × (count_by (has_key t p) r.documents ≡ 0))
      ⊎ ((d : Document) × (find_document t p r ≡ ok (some d))
          × Member d r.documents
          × (has_key t p d ≡ true))
find_document-cases t p r c = scalar-Member (has_key t p) r.documents (c.unique_key t p)

-- A row of the table that has the id of `d` is `d`.
pub eq_of_id :
    (r : Registry)
    → IsConsistent r
    → (d x : Document) → Member d r.documents
    → Member x r.documents
    → has_id d.id x ≡ true
    → x ≡ d
eq_of_id r c d x m n h =
    eq_of_count_by (has_id d.id) x d r.documents n m h (ground arith) (c.unique_id d.id)

-- Attributes other than the id and the key change: the tables keep their unique rows.
module _ (r : Registry) (c : IsConsistent r) (i : ℕ) (f : Document → Document) where
  pub unique_id-update :
      ((d : Document) → (f d).id ≡ d.id)
      → (j : ℕ) → count_by (has_id j) (update_document i f r).documents ≤ 1
  unique_id-update same j =
      rw (count_by-update_where (has_id j) (has_id i) f r.documents (λ d h. ground (arith, same d)))
        (c.unique_id j)

  pub unique_key-update :
      ((d : Document) → ((f d).tenant_id ≡ d.tenant_id) × ((f d).source_path ≡ d.source_path))
      → (t p : String) → count_by (has_key t p) (update_document i f r).documents ≤ 1
  unique_key-update same t p =
      rw
        (count_by-update_where (has_key t p) (has_id i) f r.documents
          (λ d h. ground (arith, same d)))
        (c.unique_key t p)

-- An update of document `d` alone, where the history of `d` is given anew.
pub IsConsistent-update :
    (r : Registry)
    → IsConsistent r
    → (d : Document) → Member d r.documents
    → (f : Document → Document)
    → ((x : Document)
        → ((f x).id ≡ x.id) × ((f x).tenant_id ≡ x.tenant_id) × ((f x).source_path ≡ x.source_path))
    → (vs : List DocumentVersion) → History d.id (f d).current_version vs
    → ((j cv : ℕ) → j ≢ d.id → History j cv r.versions → History j cv vs)
    → IsConsistent (record { documents = update_where (has_id d.id) f r.documents; versions = vs })
IsConsistent-update r c d m f same vs own others = record {
  unique_id = unique_id-update r c d.id f (λ x. (same x).0);
  unique_key = unique_key-update r c d.id f (λ x. ((same x).1, (same x).2));
  history = λ y n.
      let (x, k, e) = Member-update_where (has_id d.id) f y r.documents n in
      elim (Bool-cases (has_id d.id x)) [
        | inl here ↦
            let e' : y ≡ f x = rw here at e in
            let s : x ≡ d = eq_of_id r c d x m k here in rw (e', s, (same d).0) own
        | inr other ↦
            let e' : y ≡ x = rw other at e in
            rw e' (others x.id x.current_version (ground arith) (c.history x k))
      ];
}

pub eq_of_has_key :
    (t p : String) (d : Document) → has_key t p d ≡ true → (d.tenant_id ≡ t) × (d.source_path ≡ p)
eq_of_has_key t p d h = ground arith

-- A document is added under a key and an id that no row has.
pub IsConsistent-add :
    (r : Registry)
    → IsConsistent r
    → (d : Document) → IsFresh d.id r
    → count_by (has_key d.tenant_id d.source_path) r.documents ≡ 0
    → (vs : List DocumentVersion) → History d.id d.current_version vs
    → ((j cv : ℕ) → j ≢ d.id → History j cv r.versions → History j cv vs)
    → IsConsistent (record { documents = d ∷ r.documents; versions = vs })
IsConsistent-add r c d fresh new vs own others = record {
  unique_id = λ j. ground (arith, c.unique_id j, fresh.no_document);
  unique_key = λ t p. elim (Bool-cases (has_key t p d)) [
    | inl h ↦
        let (e, f) = eq_of_has_key t p d h in
        let z : count_by (has_key t p) r.documents ≡ 0 =
          subst₂ (λ u q. count_by (has_key u q) r.documents ≡ 0) e f new in
        rw h (omega arith)
    | inr h ↦ rw h (omega (arith, c.unique_key t p))
  ];
  history = λ y n. elim n [
    | inl e ↦ rw e own
    | inr m ↦ others y.id y.current_version (ne_of_fresh d.id r fresh y m) (c.history y m)
  ];
}

abbrev pub Kept : Result (VersionDecision × Registry) → Type 0
Kept res = (out : VersionDecision × Registry) × (res ≡ ok out) × IsConsistent out.1

module _ (now : ℕ) (file : FileInfo) (r : Registry) (c : IsConsistent r) where
  pub create_document-Kept :
      (new_id : ℕ)
      → IsFresh new_id r
      → count_by (has_key file.tenant_id file.source_path) r.documents ≡ 0
      → IsConsistent (create_document new_id now file r).1
  unfolding create_document
  create_document-Kept new_id fresh none_yet =
      IsConsistent-add r c (new_document new_id now processing file) fresh none_yet _
        (History-first new_id (version_row new_id 1 now file) r.versions fresh.no_version refl refl
          refl)
        (λ j cv ne h. History-other j cv r.versions h _ (λ e. ne (sym e)))

  module _ (d : Document) (m : Member d r.documents) where
    start_first_version-Kept :
        rows d.id d.current_version r.versions ≡ 0
        → IsConsistent (start_first_version now file d r).1
    unfolding start_first_version
    start_first_version-Kept missing =
        IsConsistent-update r c d m (first_ingestion file) (λ x. (refl, refl, refl)) _
          (History-fill d.id d.current_version r.versions (c.history d m) _ refl refl refl missing)
          (λ j cv ne h. History-other j cv r.versions h _ (λ e. ne (sym e)))

    start_next_version-Kept :
        rows d.id d.current_version r.versions ≡ 1
        → IsConsistent (start_next_version now file d r).1
    unfolding start_next_version
    start_next_version-Kept found =
        IsConsistent-update r c d m (next_ingestion file) (λ x. (refl, refl, refl)) _
          (History-next d.id d.current_version r.versions (c.history d m) _ now refl refl refl
            found)
          (λ j cv ne h.
            History-other j cv _
              (History-supersede_other j cv r.versions h d.id d.current_version now ne) _
              (λ e. ne (sym e)))

    -- Whether the current version has a row decides the branch; the query for it does not raise.
    pub find_version-cases :
        ((find_version d.id d.current_version r ≡ ok none)
          × (rows d.id d.current_version r.versions ≡ 0))
        ⊎ ((v : DocumentVersion) × (find_version d.id d.current_version r ≡ ok (some v))
            × (rows d.id d.current_version r.versions ≡ 1))
    find_version-cases =
        let most = (c.history d m).current_row in
        elim (scalar-Member (is_row d.id d.current_version) r.versions most) [
          | inl (e, z) ↦ inl (e, z)
          | inr (v, e, k, h) ↦ inr (
            v,
            e,
            omega (
              arith,
              most,
              count_by-pos_of_Member (is_row d.id d.current_version) v r.versions k h,
            ),
          )
        ]

    refresh_document-Kept : Kept (refresh_document now file d r)
    unfolding refresh_document start_version
    refresh_document-Kept = elim (Bool-cases (is_unchanged file d)) [
      | inl same ↦ rw same ((_, refl, c))
      | inr differs ↦ elim find_version-cases [
        | inl (e, z) ↦ rw (differs, e) ((_, refl, start_first_version-Kept z))
        | inr (v, e, o) ↦ rw (differs, e) ((_, refl, start_next_version-Kept o))
      ]
    ]

  -- From consistent tables, with a fresh id, `get_or_create_document` never raises, and leaves
  -- consistent tables: one row for each id and each (tenant, path), and an unbroken history of
  -- versions for each document, of which only the current one is not superseded.
  pub get_or_create_document-IsConsistent :
      (new_id : ℕ) → IsFresh new_id r → Kept (get_or_create_document new_id now file r)
  unfolding get_or_create_document
  get_or_create_document-IsConsistent new_id fresh =
      elim (find_document-cases file.tenant_id file.source_path r c) [
        | inl (e, z) ↦ rw e ((_, refl, create_document-Kept new_id fresh z))
        | inr (d, e, m, k) ↦ rw e (refresh_document-Kept d m)
      ]

-- What a query by key returns is a row of the table, with that key.
pub Member_of_found :
    (t p : String) (r : Registry) (d : Document)
    → IsConsistent r
    → find_document t p r ≡ ok (some d)
    → Member d r.documents × (has_key t p d ≡ true)
Member_of_found t p r d c found = elim (find_document-cases t p r c) [
  | inl (e, z) ↦ absurd (cc (e, found))
  | inr (x, e, m, k) ↦
      let same : x ≡ d = cc (e, found) in (subst (λ y. Member y r.documents) same m, rw same at k)
]

-- A row of the table is what a query by its key returns.
pub found_of_Member :
    (t p : String) (r : Registry) (d : Document)
    → IsConsistent r
    → Member d r.documents
    → has_key t p d ≡ true
    → find_document t p r ≡ ok (some d)
found_of_Member t p r d c m k = elim (find_document-cases t p r c) [
  | inl (e, z) ↦ absurd (omega (arith, count_by-pos_of_Member (has_key t p) d r.documents m k))
  | inr (x, e, n, h) ↦
      let same : x ≡ d = eq_of_count_by (has_key t p) x d r.documents n m h k (c.unique_key t p) in
      rw (e, same)
]

pub none_of_absent :
    (t p : String) (r : Registry)
    → IsConsistent r
    → find_document t p r ≡ ok none
    → count_by (has_key t p) r.documents ≡ 0
none_of_absent t p r c absent = elim (find_document-cases t p r c) [
  | inl (e, z) ↦ z
  | inr (x, e, m, k) ↦ absurd (cc (e, absent))
]
