-- ===== src/Security/Auth.antt =====
-- core/security/api_key.py, core/security/dependencies.py and api/v1/auth.py over the table of API
-- keys. The random token, the id and the time of a call are arguments. `digest` is the SHA-256
-- hex digest of a text, which nothing here computes.
pub mod Issued
pub mod Guarded
mod Tests
use enterprise_doc_rag.Common.{
  ℕ, zero, suc, String, ◌<>◌, Bool, true, false, not, ◌&&◌, ◌||◌, Option, none, some, List, [], ◌∷◌,
  ◌==◌, string_eq, nat_eq, if◌then◌else◌, any, select, update_where, map, leb,
}
use enterprise_doc_rag.Common.Sorting.{sort_by}
use enterprise_doc_rag.Common.Result.{Result, ok, err, http, external, ◌>>=◌, scalar_one_or_none}
use enterprise_doc_rag.Config.{Settings}
use enterprise_doc_rag.Security.Keys.{ApiKey, AllowedFilters}

-- `text[:n]`
abbrev pub first_chars : ℕ → String → String
first_chars zero text = String.[]
first_chars (suc n) String.[] = String.[]
first_chars (suc n) (String.◌∷◌ c text) = String.◌∷◌ c (first_chars n text)

abbrev pub prefix_display_chars : ℕ
prefix_display_chars = 12

pub record GeneratedKey : Type 0 where
  pub full_key : String
  pub key_prefix : String
  pub key_hash : String

pub record CreateApiKeyRequest : Type 0 where
  pub tenant_id : String
  pub name : String
  pub allowed_filters : Option AllowedFilters
  pub is_admin : Bool

pub record CreateApiKeyResponse : Type 0 where
  pub api_key : String
  pub key_prefix : String
  pub tenant_id : String

-- What `list_api_keys` shows of a key: neither the key nor its hash.
pub record ApiKeyResponse : Type 0 where
  pub id : ℕ
  pub tenant_id : String
  pub name : String
  pub key_prefix : String
  pub allowed_filters : AllowedFilters
  pub is_admin : Bool
  pub created_at : ℕ
  pub revoked_at : Option ℕ
  pub last_used_at : Option ℕ

abbrev pub has_hash : String → ApiKey → Bool
has_hash h k = k.key_hash == h

abbrev pub has_prefix : String → ApiKey → Bool
has_prefix p k = k.key_prefix == p

abbrev pub is_revoked : ApiKey → Bool
is_revoked k = elim k.revoked_at [ none ↦ false | some t ↦ true ]

abbrev pub touch : ℕ → ApiKey → ApiKey
touch now k = record k { last_used_at = some now }

abbrev pub revoke : ℕ → ApiKey → ApiKey
revoke now k = record k { revoked_at = some now }

-- `order_by(ApiKey.created_at.desc())`
abbrev pub newest_first : List ApiKey → List ApiKey
newest_first = sort_by (λ k j. leb j.created_at k.created_at)

abbrev pub response_of : ApiKey → ApiKeyResponse
response_of k = record {
  id = k.id;
  tenant_id = k.tenant_id;
  name = k.name;
  key_prefix = k.key_prefix;
  allowed_filters = k.allowed_filters;
  is_admin = k.is_admin;
  created_at = k.created_at;
  revoked_at = k.revoked_at;
  last_used_at = k.last_used_at;
}

abbrev pub or_no_filters : Option AllowedFilters → AllowedFilters
or_no_filters none = []
or_no_filters (some filters) = filters

module _ (settings : Settings) where
  pub require_bootstrap_admin : String → Result (Unit {0})
  require_bootstrap_admin x_admin_key =
      if not (x_admin_key == settings.admin_bootstrap_api_key) then err (http 403) else ok tt

  pub list_api_keys : String → List ApiKey → Result (List ApiKeyResponse)
  unfolding require_bootstrap_admin
  list_api_keys x_admin_key keys = do
    _ ← require_bootstrap_admin x_admin_key
    ok (map response_of (newest_first keys))

  revoke_found : ℕ → List ApiKey → Option ApiKey → Result (List ApiKey)
  revoke_found now keys none = err (http 404)
  revoke_found now keys (some k) = ok (update_where (λ j. j.id == k.id) (revoke now) keys)

  unfoldable pub revoke_api_key : String → String → ℕ → List ApiKey → Result (List ApiKey)
  unfolding require_bootstrap_admin revoke_found
  revoke_api_key x_admin_key key_prefix now keys = do
    _ ← require_bootstrap_admin x_admin_key
    api_key ← scalar_one_or_none (select (has_prefix key_prefix) keys)
    revoke_found now keys api_key

module _ (digest : String → String) where
  pub generate_api_key : String → GeneratedKey
  generate_api_key token =
      let full_key = "edr_" <> token in
      record {
        full_key = full_key;
        key_prefix = first_chars prefix_display_chars full_key;
        key_hash = digest full_key;
      }

  abbrev pub new_key : ℕ → ℕ → GeneratedKey → CreateApiKeyRequest → ApiKey
  new_key new_id now generated request = record {
    id = new_id;
    tenant_id = request.tenant_id;
    name = request.name;
    key_hash = generated.key_hash;
    key_prefix = generated.key_prefix;
    allowed_filters = or_no_filters request.allowed_filters;
    is_admin = request.is_admin;
    created_at = now;
    revoked_at = none;
    last_used_at = none;
  }

  accept_key : ℕ → List ApiKey → Option ApiKey → Result (ApiKey × List ApiKey)
  accept_key now keys none = err (http 401)
  accept_key now keys (some k) =
      if is_revoked k
      then err (http 401)
      else ok (touch now k, update_where (λ j. j.id == k.id) (touch now) keys)

  unfoldable pub get_current_api_key : String → ℕ → List ApiKey → Result (ApiKey × List ApiKey)
  unfolding accept_key
  get_current_api_key x_api_key now keys = do
    api_key ← scalar_one_or_none (select (has_hash (digest x_api_key)) keys)
    accept_key now keys api_key

  module _ (settings : Settings) where
    -- The commit fails if a row has the hash already: the column is unique.
    add_key : ApiKey → List ApiKey → Result (List ApiKey)
    add_key k keys = if any (has_hash k.key_hash) keys then err external else ok (k ∷ keys)

    unfoldable pub create_api_key :
        String
        → CreateApiKeyRequest
        → String
        → ℕ
        → ℕ
        → List ApiKey
        → Result (CreateApiKeyResponse × List ApiKey)
    unfolding require_bootstrap_admin generate_api_key add_key
    create_api_key x_admin_key request token new_id now keys = do
      _ ← require_bootstrap_admin settings x_admin_key
      let generated = generate_api_key token
      keys' ← add_key (new_key new_id now generated request) keys
      ok (
        record {
          api_key = generated.full_key;
          key_prefix = generated.key_prefix;
          tenant_id = request.tenant_id;
        },
        keys',
      )
