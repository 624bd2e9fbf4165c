-- ===== src/Retrieval/Filters.antt =====
-- core/retrieval/filters.py, and the post-hoc filter of hybrid_retriever.py. A node's metadata has
-- the keys that the ingestion pipeline writes; `none` stands both for a missing key and for None,
-- which `dict.get` does not tell apart.
pub mod Agreement
pub mod Payloads
mod Tests
use enterprise_doc_rag.Common.{
  ℕ, String, ◌≡◌, Bool, true, false, not, ◌&&◌, Option, none, some, List, [], ◌∷◌, ◌++◌, ◌==◌,
  string_eq, option_eq, if◌then◌else◌, contains, any, all, select,
}

pub record NodeMetadata : Type 0 where
  pub tenant_id : Option String
  pub department : Option String
  pub doc_type : Option String
  pub tags : Option (List String)
  pub source_file : Option String
  pub document_id : Option String
  pub page_label : Option String
  pub section_title : Option String
  pub slide_number : Option String

pub record SearchFilters : Type 0 where
  pub tenant_id : String
  pub department : Option (List String)
  pub doc_type : Option (List String)
  pub tags : Option (List String)

-- llama_index's filter objects, as far as `build_metadata_filters` makes them.
pub data FilterOperator : Type 0 where
  eq in_list any_of : FilterOperator

pub data FilterValue : Type 0 where
  one : String → FilterValue
  many : List String → FilterValue

pub record MetadataFilter : Type 0 where
  pub key : String
  pub value : FilterValue
  pub operator : FilterOperator

-- `xs or []`; a facet is in force if that is not empty, which is Python's truth of `xs`.
abbrev pub or_empty {ℓ} : {A : Type ℓ} → Option (List A) → List A
or_empty none = []
or_empty (some xs) = xs

abbrev pub is_empty {ℓ} : {A : Type ℓ} → List A → Bool
is_empty [] = true
is_empty (x ∷ xs) = false

-- `value in values`, where the value may be None.
abbrev pub is_in : Option String → List String → Bool
is_in none values = false
is_in (some v) values = contains values v

-- `set(xs) & set(ys)` is not empty.
abbrev pub overlaps : List String → List String → Bool
overlaps xs ys = any (contains ys) xs

abbrev pub facet_filter : String → FilterOperator → Option (List String) → List MetadataFilter
facet_filter key op none = []
facet_filter key op (some []) = []
facet_filter key op (some (v ∷ vs)) =
    record { key = key; value = many (v ∷ vs); operator = op } ∷ []

-- The conditions, which are joined by AND.
unfoldable pub build_metadata_filters : SearchFilters → List MetadataFilter
build_metadata_filters f =
    record { key = "tenant_id"; value = one f.tenant_id; operator = eq }
    ∷ (facet_filter "department" in_list f.department
        ++ (facet_filter "doc_type" in_list f.doc_type ++ facet_filter "tags" any_of f.tags))

unfoldable pub node_matches_filters : NodeMetadata → SearchFilters → Bool
node_matches_filters m f =
    if not (m.tenant_id == some f.tenant_id)
    then false
    else if not (is_empty (or_empty f.department))
        && not (is_in m.department (or_empty f.department))
    then false
    else if not (is_empty (or_empty f.doc_type)) && not (is_in m.doc_type (or_empty f.doc_type))
    then false
    else if not (is_empty (or_empty f.tags)) && not (overlaps (or_empty m.tags) (or_empty f.tags))
    then false
    else true

-- A node with its score. A score is a float, which the code passes on and never computes with, so
-- its type is a parameter.
pub record NodeWithScore (Score : Type 0) : Type 0 where
  pub text : String
  pub metadata : NodeMetadata
  pub score : Option Score

-- `FilteredBM25Retriever._retrieve`, on what the BM25 retriever found.
unfoldable pub retrieve_filtered :
    {Score : Type 0} → SearchFilters → List (NodeWithScore Score) → List (NodeWithScore Score)
retrieve_filtered f nodes = select (λ n. node_matches_filters n.metadata f) nodes

-- The values that a node's payload has under a key.
abbrev pub option_list : Option String → List String
option_list none = []
option_list (some v) = v ∷ []

abbrev pub payload : String → NodeMetadata → List String
payload key m =
    if key == "tenant_id"
    then option_list m.tenant_id
    else if key == "department"
    then option_list m.department
    else if key == "doc_type"
    then option_list m.doc_type
    else if key == "tags"
    then or_empty m.tags
    else []

-- Qdrant's documented reading of the three conditions: a payload that holds several values matches
-- if one of them does.
pub record PayloadMatching : Type 0 where
  pub holds : MetadataFilter → NodeMetadata → Bool
  pub holds-eq :
      (k v : String) (m : NodeMetadata)
      → holds (record { key = k; value = one v; operator = eq }) m ≡ contains (payload k m) v
  pub holds-in_list :
      (k : String) (vs : List String) (m : NodeMetadata)
      → holds (record { key = k; value = many vs; operator = in_list }) m
        ≡ overlaps (payload k m) vs
  pub holds-any_of :
      (k : String) (vs : List String) (m : NodeMetadata)
      → holds (record { key = k; value = many vs; operator = any_of }) m ≡ overlaps (payload k m) vs

-- Which nodes the dense retriever may return.
abbrev pub admits : PayloadMatching → List MetadataFilter → NodeMetadata → Bool
admits q filters m = all (λ f. q.holds f m) filters
