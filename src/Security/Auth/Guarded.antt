-- ===== src/Security/Auth/Guarded.antt =====
-- The management of keys is open to the bootstrap admin alone.
use enterprise_doc_rag.Common.{ℕ, ◌≡◌, ◌≢◌, String, List, arith, string_eq}
use enterprise_doc_rag.Common.Result.{err, http}
use enterprise_doc_rag.Config.{Settings}
use enterprise_doc_rag.Security.Keys.{ApiKey}
use enterprise_doc_rag.Security.Auth.{
  CreateApiKeyRequest, require_bootstrap_admin, create_api_key, list_api_keys, revoke_api_key,
}

module _ (digest : String → String) (settings : Settings) (admin : String) where
  -- With another admin key than the configured one every management call is answered by 403, before
  -- it reads or changes a row.
  pub admin_required :
      admin ≢ settings.admin_bootstrap_api_key
      → (request : CreateApiKeyRequest) (token prefix : String) (new_id now : ℕ)
        (keys : List ApiKey)
      → (create_api_key digest settings admin request token new_id now keys ≡ err (http 403))
        × (list_api_keys settings admin keys ≡ err (http 403))
        × (revoke_api_key settings admin prefix now keys ≡ err (http 403))
  unfolding create_api_key list_api_keys revoke_api_key require_bootstrap_admin
  admin_required h request token prefix new_id now keys = (ground arith, ground arith, ground arith)
