-- ===== src/Facets/Offered.antt =====
-- Which values are offered.
use enterprise_doc_rag.Common.{
  ap, ◌↔◌, Option-cases, none, false, Member, Option, String, ◌≡◌, ◌≢◌, refl, sym, ◌∙◌, inl, inr,
  Bool, true, ◌&&◌, ◌||◌, some, List, [], ◌∷◌, ◌++◌, arith, ◌==◌, string_eq, Bool-cases, contains,
  any, select,
}
use enterprise_doc_rag.Common.Sorting.{sorted, text_le, contains-sort_by}
use enterprise_doc_rag.Security.Keys.{ApiKey, get}
use enterprise_doc_rag.Retrieval.Filters.{or_empty, is_empty}
use enterprise_doc_rag.Registry.{Document, Status, deleted, is_deleted}
use enterprise_doc_rag.Facets.{
  option_list, distinct, is_listed, column, facet, departments, doc_types, tags_of, get_facets,
}

contains-select :
    (p : String → Bool) (xs : List String) (v : String)
    → contains (select p xs) v ≡ (contains xs v && p v)
contains-select p [] v = refl
contains-select p (x ∷ xs) v = elim (Bool-cases (v == x)) [
  | inl here ↦
      let same : v ≡ x = ground arith in rw (sym same) (ground (arith, contains-select p xs v))
  | inr other ↦ ground (arith, contains-select p xs v)
]

contains-append :
    (xs ys : List String) (v : String) → contains (xs ++ ys) v ≡ (contains xs v || contains ys v)
contains-append [] ys v = refl
contains-append (x ∷ xs) ys v = ground (arith, contains-append xs ys v)

contains-distinct : (xs : List String) (v : String) → contains (distinct xs) v ≡ contains xs v
contains-distinct [] v = refl
contains-distinct (x ∷ xs) v = elim (Bool-cases (v == x)) [
  | inl here ↦
      let same : v ≡ x = ground arith in rw (sym same) (ground (arith, contains-distinct xs v))
  | inr other ↦ ground (arith, contains-distinct xs v)
]

contains-column :
    (field : Document → List String) (tenant : String) (documents : List Document) (v : String)
    → contains (column field tenant documents) v
      ≡ any (λ d. is_listed tenant d && contains (field d) v) documents
contains-column field tenant [] v = refl
contains-column field tenant (d ∷ documents) v = ground (
  arith,
  contains-append (field d) (column field tenant documents) v,
  contains-column field tenant documents v,
)

-- A key may query a value of a facet.
abbrev pub allows : ApiKey → String → String → Bool
allows api_key name v =
    is_empty (or_empty (get name api_key.allowed_filters))
    || contains (or_empty (get name api_key.allowed_filters)) v

contains-facet :
    (field : Document → List String) (name : String) (api_key : ApiKey) (documents : List Document)
    (v : String)
    → contains (facet field name api_key documents) v ≡ (
        any (λ d. is_listed api_key.tenant_id d && contains (field d) v) documents
        && allows api_key name v)
contains-facet field name api_key documents v =
    let values = distinct (column field api_key.tenant_id documents) in
    let e : contains (sorted values) v
        ≡ any (λ d. is_listed api_key.tenant_id d && contains (field d) v) documents =
      contains-sort_by text_le v values
      ∙ (contains-distinct (column field api_key.tenant_id documents) v
          ∙ contains-column field api_key.tenant_id documents v) in
    let s =
      contains-select (contains (or_empty (get name api_key.allowed_filters))) (sorted values) v in
    elim (Bool-cases (is_empty (or_empty (get name api_key.allowed_filters)))) [
      | inl free ↦ rw free (ground (arith, e))
      | inr restricted ↦ rw restricted (ground (arith, e, s))
    ]

any-true :
    (p : Document → Bool) (documents : List Document)
    → any p documents ≡ true
    → (d : Document) × Member d documents × (p d ≡ true)
any-true p [] h = absurd (cc h)
any-true p (d ∷ documents) h = elim (Bool-cases (p d)) [
  | inl here ↦ (d, inl refl, here)
  | inr other ↦
      let h' : any p documents ≡ true = rw other at h in
      let (x, m, e) = any-true p documents h' in (x, inr m, e)
]

any-Member :
    (p : Document → Bool) (documents : List Document) (d : Document)
    → Member d documents
    → p d ≡ true
    → any p documents ≡ true
any-Member p [] d m h = elim m [ ]
any-Member p (x ∷ documents) d (inl e) h = let here : p x ≡ true = rw e at h in rw here refl
any-Member p (x ∷ documents) d (inr m) h = ground (arith, any-Member p documents d m h)

contains-Member : (xs : List String) (v : String) → contains xs v ≡ true → Member v xs
contains-Member [] v h = absurd (cc h)
contains-Member (x ∷ xs) v h = elim (Bool-cases (v == x)) [
  | inl here ↦ inl (ground (arith, here))
  | inr other ↦ inr (contains-Member xs v (ground (arith, h, other)))
]

Member-contains : (xs : List String) (v : String) → Member v xs → contains xs v ≡ true
Member-contains [] v m = elim m [ ]
Member-contains (x ∷ xs) v (inl e) = ground (arith, e)
Member-contains (x ∷ xs) v (inr m) = ground (arith, Member-contains xs v m)

-- The key may be shown the value: its facet is not restricted, or lists the value.
pub data MayShow (api_key : ApiKey) (name v : String) : Type 0 where
  unlisted : get name api_key.allowed_filters ≡ none → MayShow api_key name v
  unrestricted : get name api_key.allowed_filters ≡ some [] → MayShow api_key name v
  listed :
      (values : List String)
      → get name api_key.allowed_filters ≡ some values
      → Member v values
      → MayShow api_key name v

-- A document of the tenant of the key that is not deleted, and has the value.
pub record IsHeld (has : Document → Type 0) (api_key : ApiKey) (documents : List Document)
    : Type 0 where
  pub document : Document
  pub stored : Member document documents
  pub tenant : document.tenant_id ≡ api_key.tenant_id
  pub live : document.status ≢ deleted
  pub value : has document

allows-MayShow :
    (api_key : ApiKey) (name v : String) → allows api_key name v ≡ true → MayShow api_key name v
allows-MayShow api_key name v h = elim (Option-cases (get name api_key.allowed_filters)) [
  | inl e ↦ unlisted e
  | inr ([], e) ↦ unrestricted e
  | inr (x ∷ xs, e) ↦
      let h' : contains (x ∷ xs) v ≡ true = rw e at h in
      listed (x ∷ xs) e (contains-Member (x ∷ xs) v h')
]

MayShow-allows :
    (api_key : ApiKey) (name v : String) → MayShow api_key name v → allows api_key name v ≡ true
MayShow-allows api_key name v (unlisted e) = rw e refl
MayShow-allows api_key name v (unrestricted e) = rw e refl
MayShow-allows api_key name v (listed [] e m) = elim m [ ]
MayShow-allows api_key name v (listed (x ∷ xs) e m) = rw e (Member-contains (x ∷ xs) v m)

is_deleted-deleted : (s : Status) → is_deleted s ≡ false → s ≢ deleted
is_deleted-deleted s h e = cc (rw e at h)

deleted_of_status : (s : Status) → is_deleted s ≡ true → s ≡ deleted
deleted_of_status deleted h = refl
deleted_of_status s h = cc

live_of_status : (s : Status) → s ≢ deleted → is_deleted s ≡ false
live_of_status s ne = elim (Bool-cases (is_deleted s)) [
  | inl gone ↦ absurd (ne (deleted_of_status s gone))
  | inr live ↦ live
]

module _ (field : Document → List String) (has : String → Document → Type 0) (name : String)
    (to : (d : Document) (v : String) → Member v (field d) → has v d)
    (from : (d : Document) (v : String) → has v d → Member v (field d)) where
  facet-offers :
      (api_key : ApiKey) (documents : List Document) (v : String)
      → Member v (facet field name api_key documents)
        ↔ (IsHeld (has v) api_key documents × MayShow api_key name v)
  facet-offers api_key documents v =
      let p : Document → Bool = λ d. is_listed api_key.tenant_id d && contains (field d) v in
      let e = contains-facet field name api_key documents v in
      (
        (λ m.
            let h = Member-contains (facet field name api_key documents) v m in
            let found : any p documents ≡ true = ground (arith, e, h) in
            let (d, stored, k) = any-true p documents found in
            (
              record {
                document = d;
                stored = stored;
                tenant = ground (arith, k);
                live = is_deleted-deleted d.status (ground (arith, k));
                value = to d v (contains-Member (field d) v (ground (arith, k)));
              },
              allows-MayShow api_key name v (ground (arith, e, h)),
            )),
        (λ (held, shown).
            let live = live_of_status held.document.status held.live in
            let k : p held.document ≡ true = ground (
              arith,
              held.tenant,
              live,
              Member-contains (field held.document) v (from held.document v held.value),
            ) in
            let found = any-Member p documents held.document held.stored k in
            contains-Member (facet field name api_key documents) v
              (ground (arith, e, found, MayShow-allows api_key name v shown))),
      )

Member-option_list : (o : Option String) (v : String) → Member v (option_list o) ↔ (o ≡ some v)
Member-option_list none v = (λ m. elim m [ ], λ e. absurd (cc e))
Member-option_list (some x) v =
    ((λ m. elim m [ inl e ↦ ap some (sym e) | inr bad ↦ elim bad [ ] ]), (λ e. inl (cc e)))

-- The document has the tag.
abbrev pub HasTag : String → Document → Type 0
HasTag v d = (tags : List String) × (d.tags ≡ some tags) × Member v tags

Member-tags_of : (d : Document) (v : String) → Member v (tags_of d) → HasTag v d
Member-tags_of d v m = elim (Option-cases d.tags) [
  | inl e ↦ let m' : Member v [] = rw e at m in elim m' [ ]
  | inr (tags, e) ↦ let m' : Member v tags = rw e at m in (tags, e, m')
]

-- A value of a facet is offered exactly if a document of the tenant of the key that is not deleted has
-- it as its department or document type or among its tags, and the key does not restrict the facet or
-- lists the value.
pub get_facets_lem :
    (api_key : ApiKey) (documents : List Document) (v : String)
    → (Member v (get_facets api_key documents).department
        ↔ (IsHeld (λ d. d.department ≡ some v) api_key documents × MayShow api_key "department" v))
      × (Member v (get_facets api_key documents).doc_type
          ↔ (IsHeld (λ d. d.doc_type ≡ some v) api_key documents × MayShow api_key "doc_type" v))
      × (Member v (get_facets api_key documents).tags
          ↔ (IsHeld (HasTag v) api_key documents × MayShow api_key "tags" v))
unfolding get_facets
get_facets_lem api_key documents v = (
  facet-offers departments (λ v d. d.department ≡ some v) "department"
      (λ d v. (Member-option_list d.department v).0) (λ d v. (Member-option_list d.department v).1)
      api_key documents v,
  facet-offers doc_types (λ v d. d.doc_type ≡ some v) "doc_type"
      (λ d v. (Member-option_list d.doc_type v).0) (λ d v. (Member-option_list d.doc_type v).1)
      api_key documents v,
  facet-offers tags_of HasTag "tags" Member-tags_of (λ d v (tags, e, m). rw e m) api_key documents
      v,
)
