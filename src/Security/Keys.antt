-- ===== src/Security/Keys.antt =====
-- models/api_key.py: the row of an API key.
use enterprise_doc_rag.Common.{
  ℕ, String, Bool, Option, none, some, List, [], ◌∷◌, ◌==◌, string_eq, if◌then◌else◌,
}

-- `allowed_filters`, a dict from the name of a facet to the values that the key may query.
abbrev pub AllowedFilters : Type 0
AllowedFilters = List (String × List String)

-- `allowed.get(facet)`
abbrev pub get : String → AllowedFilters → Option (List String)
get facet [] = none
get facet ((k, vs) ∷ rest) = if k == facet then some vs else get facet rest

pub record ApiKey : Type 0 where
  pub id : ℕ
  pub tenant_id : String
  pub name : String
  pub key_hash : String
  pub key_prefix : String
  pub allowed_filters : AllowedFilters
  pub is_admin : Bool
  pub created_at : ℕ
  pub revoked_at : Option ℕ
  pub last_used_at : Option ℕ
