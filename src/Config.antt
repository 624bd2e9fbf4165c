-- ===== src/Config.antt =====
-- config.py: the settings that the modelled code reads. Settings that are floats are left out: the
-- code only passes them on to third-party libraries.
use enterprise_doc_rag.Common.{ℕ, String, Bool, true}

pub record Settings : Type 0 where
  pub reranker_enabled : Bool
  pub hybrid_top_k : ℕ
  pub query_rewrite_enabled : Bool
  pub num_query_variations : ℕ
  pub context_compression_enabled : Bool
  pub upload_dir : String
  pub semantic_cache_enabled : Bool
  pub semantic_cache_ttl_seconds : ℕ
  pub admin_bootstrap_api_key : String
  pub rate_limit_enabled : Bool
  pub rate_limit_requests : ℕ
  pub rate_limit_window_seconds : ℕ

-- The defaults.
abbrev pub default_settings : Settings
default_settings = record {
  reranker_enabled = true;
  hybrid_top_k = 20;
  query_rewrite_enabled = true;
  num_query_variations = 3;
  context_compression_enabled = true;
  upload_dir = "storage/uploads";
  semantic_cache_enabled = true;
  semantic_cache_ttl_seconds = 86400;
  admin_bootstrap_api_key = "change_me_admin_key";
  rate_limit_enabled = true;
  rate_limit_requests = 30;
  rate_limit_window_seconds = 60;
}
