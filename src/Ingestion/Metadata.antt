-- ===== src/Ingestion/Metadata.antt =====
-- ingestion/metadata_resolver.py. A path is the list of its parts, the file's name last; the manifest
-- is the dict that the JSON file holds, and an override has for each key the value that it gives,
-- or none for a key that is missing.
pub mod Resolved
mod Tests
use enterprise_doc_rag.Common.{
  String, ◌<>◌, Option, none, some, List, [], ◌∷◌, ◌==◌, string_eq, if◌then◌else◌,
}
use enterprise_doc_rag.Common.Text.{join}

pub record ResolvedMetadata : Type 0 where
  pub tenant_id : String
  pub department : Option String
  pub doc_type : Option String
  pub tags : List String

pub record Override : Type 0 where
  pub tenant_id : Option String
  pub department : Option (Option String)
  pub doc_type : Option (Option String)
  pub tags : Option (List String)

abbrev pub Manifest : Type 0
Manifest = List (String × Override)

abbrev pub no_override : Override
no_override = record { tenant_id = none; department = none; doc_type = none; tags = none }

-- `self._manifest.get(path, {})`
abbrev pub override_of : String → Manifest → Override
override_of path [] = no_override
override_of path ((p, override) ∷ rest) = if p == path then override else override_of path rest

-- `override.get(key, default)`
abbrev pub get_or : {A : Type 0} → Option A → A → A
get_or none default = default
get_or (some value) default = value

-- The folders of a path, without the name of the file.
abbrev pub folders : List String → List String
folders [] = []
folders (name ∷ []) = []
folders (part ∷ next ∷ parts) = part ∷ folders (next ∷ parts)

abbrev pub by_convention : List String → ResolvedMetadata
by_convention [] = record { tenant_id = "default"; department = none; doc_type = none; tags = [] }
by_convention (tenant ∷ []) = record {
  tenant_id = tenant;
  department = none;
  doc_type = none;
  tags = [];
}
by_convention (tenant ∷ department ∷ []) = record {
  tenant_id = tenant;
  department = some department;
  doc_type = none;
  tags = [];
}
by_convention (tenant ∷ department ∷ doc_type ∷ rest) = record {
  tenant_id = tenant;
  department = some department;
  doc_type = some doc_type;
  tags = [];
}

abbrev pub overridden : Override → ResolvedMetadata → ResolvedMetadata
overridden override r = record {
  tenant_id = get_or override.tenant_id r.tenant_id;
  department = get_or override.department r.department;
  doc_type = get_or override.doc_type r.doc_type;
  tags = get_or override.tags r.tags;
}

-- The path is relative to the root.
unfoldable pub resolve : Manifest → List String → ResolvedMetadata
resolve manifest parts =
    overridden (override_of (join "/" parts) manifest) (by_convention (folders parts))
