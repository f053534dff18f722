-- ===== src/Examples/Config.antt =====
-- The theorems about the configuration, where the environment sets the size of the pool.
use coverage_mcp.Prelude.{
  ◌≡◌, refl, String, Option, none, some, str_eq, arith, if◌then◌else◌, leb, ◌&&◌,
}
use coverage_mcp.Error.{ok, err}
use coverage_mcp.Text.{show_ℕ}
use coverage_mcp.Config.{ServerConfig, out_of_range, env_number, from_environment}
use coverage_mcp.Config.Bounds.{IsBounded, from_environment-IsBounded, env_number-show}

abbrev lookup : String → Option String
lookup name = if str_eq name "COVERAGE_MCP_DB_POOL_SIZE" then some "8" else none

abbrev config : ServerConfig
config = record {
  host = "127.0.0.1";
  port = 7000;
  default_repository_path = none;
  common_db_path = "/data/common.duckdb";
  run_retention = 100;
  run_concurrency = 4;
  mcp_http_concurrency = 16;
  db_pool_size = 8;
  db_acquire_timeout_ms = 5000;
  db_query_timeout_ms = 30000;
  http_request_timeout_seconds = 60;
  http_max_body_bytes = 1048576;
  run_log_max_bytes = 10485760;
  default_compaction_after_days = 30;
  default_compaction_interval_seconds = 3600;
  default_compaction_batch_size = 100;
}

config_lem : from_environment lookup none (some 7000) (some "/data/common.duckdb") ≡ ok config
unfolding from_environment
config_lem = refl

from_environment-IsBounded_example : IsBounded config
from_environment-IsBounded_example =
    from_environment-IsBounded lookup none (some 7000) (some "/data/common.duckdb") config
      (λ p h. ground arith) config_lem

env_number-show_example :
    env_number lookup 65535 "COVERAGE_MCP_DB_POOL_SIZE" 4 1 16
    ≡ (if leb 1 8 && leb 8 16 then ok 8 else err (out_of_range "COVERAGE_MCP_DB_POOL_SIZE" 1 16))
env_number-show_example =
    env_number-show lookup 65535 "COVERAGE_MCP_DB_POOL_SIZE" 4 1 16 8 (unfold show_ℕ in refl)
      (omega arith)
