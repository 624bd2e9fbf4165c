-- ===== src/Security/Auth/Tests.antt =====
-- Keys of two tenants.
use text.Mathlib.TextEquality.{eq_iff}
use enterprise_doc_rag.Common.{
  ℕ, ◌≡◌, refl, ◌≢◌, inl, String, ◌<>◌, false, none, List, [], ◌∷◌, arith, string_eq, nat_eq, ◌==◌,
  ◌⊎◌, update_where, Member,
}
use enterprise_doc_rag.Common.Result.{ok, err, http}
use enterprise_doc_rag.Config.{default_settings as settings}
use enterprise_doc_rag.Security.Keys.{ApiKey}
use enterprise_doc_rag.Security.Auth.{
  CreateApiKeyRequest, CreateApiKeyResponse, touch, revoke, or_no_filters, get_current_api_key,
  create_api_key, revoke_api_key,
}
use enterprise_doc_rag.Security.Auth.Issued.{
  IsKeyTable, get_current_api_key-cases, create_authenticates, revoke_ends,
}

-- A digest without collisions.
abbrev digest : String → String
digest text = "sha256:" <> text

abbrev admin : String
admin = "change_me_admin_key"

abbrev request : CreateApiKeyRequest
request = record { tenant_id = "acme"; name = "demo"; allowed_filters = none; is_admin = false }

abbrev key : String → ℕ → String → String → ApiKey
key tenant i prefix hash = record {
  id = i;
  tenant_id = tenant;
  name = "demo";
  key_hash = hash;
  key_prefix = prefix;
  allowed_filters = [];
  is_admin = false;
  created_at = 5;
  revoked_at = none;
  last_used_at = none;
}

abbrev acme_key : ApiKey
acme_key = key "acme" 1 "edr_01234567" "sha256:edr_0123456789"

abbrev globex_key : ApiKey
globex_key = key "globex" 2 "edr_abcdefgh" "sha256:edr_abcdefghij"

abbrev keys : List ApiKey
keys = acme_key ∷ globex_key ∷ []

abbrev created : List ApiKey
created = acme_key ∷ []

abbrev response : CreateApiKeyResponse
response = record { api_key = "edr_0123456789"; key_prefix = "edr_01234567"; tenant_id = "acme" }

create_run :
    create_api_key digest settings admin request "0123456789" 1 5 [] ≡ ok (response, created)
unfolding create_api_key string_eq
create_run = refl

revoked_keys : List ApiKey
revoked_keys = revoke 9 acme_key ∷ globex_key ∷ []

revoke_run : revoke_api_key settings admin "edr_01234567" 9 keys ≡ ok revoked_keys
unfolding revoke_api_key revoked_keys string_eq nat_eq
revoke_run = refl

no_keys-IsKeyTable : IsKeyTable []
no_keys-IsKeyTable = record { unique_hash = λ h. omega arith; unique_id = λ i. omega arith }

hashes_differ : ◌≢◌ {A = String} "sha256:edr_0123456789" "sha256:edr_abcdefghij"
hashes_differ = ground (arith, eq_iff "sha256:edr_0123456789" "sha256:edr_abcdefghij")

keys-IsKeyTable : IsKeyTable keys
keys-IsKeyTable = record {
  unique_hash = λ h. ground (arith, hashes_differ);
  unique_id = λ i. ground arith;
}

create_authenticates_example :
    (k : ApiKey) × (keys'' : List ApiKey) × (get_current_api_key digest "edr_0123456789" 6 created
      ≡ ok (k, keys''))
    × (k.tenant_id ≡ "acme")
    × (k.allowed_filters ≡ or_no_filters none)
create_authenticates_example =
    create_authenticates digest settings admin request "0123456789" 1 5 6 [] created response
      no_keys-IsKeyTable refl create_run

revoke_ends_example : get_current_api_key digest "edr_0123456789" 10 revoked_keys ≡ err (http 401)
revoke_ends_example =
    revoke_ends digest settings admin "edr_01234567" 9 10 keys revoked_keys keys-IsKeyTable
      revoke_run acme_key "edr_0123456789" (inl refl) refl refl

prefixes_differ : ◌≢◌ {A = String} "edr_abcdefgh" "edr_01234567"
prefixes_differ = ground (arith, eq_iff "edr_abcdefgh" "edr_01234567")

wrong_key : ◌≢◌ {A = String} "guess" "change_me_admin_key"
wrong_key = ground (arith, eq_iff "guess" "change_me_admin_key")

get_current_api_key-cases_example :
    ((k : ApiKey) × Member k keys
      × (k.key_hash ≡ digest "edr_nobody")
      × (k.revoked_at ≡ none)
      × (get_current_api_key digest "edr_nobody" 10 keys
          ≡ ok (touch 10 k, update_where (λ j. j.id == k.id) (touch 10) keys)))
    ⊎ (((k : ApiKey) → Member k keys → k.key_hash ≡ digest "edr_nobody" → k.revoked_at ≢ none)
        × (get_current_api_key digest "edr_nobody" 10 keys ≡ err (http 401)))
get_current_api_key-cases_example =
    get_current_api_key-cases digest "edr_nobody" 10 keys keys-IsKeyTable
