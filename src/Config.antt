-- ===== src/Config.antt =====
-- src/config.rs: the configuration from the command line and the environment. `lookup` reads the
-- environment. A `usize` has 64 bits.
pub mod Bounds
use Prim.Native.String.{◌++◌}
use coverage_mcp.Prelude.{
  ℕ, ◌*◌, ◌-◌, ◌^◌, String, Bool, ◌&&◌, not, Option, none, some, ltb, leb, unwrap_or, min,
}
use coverage_mcp.Error.{AppError, AppResult, ok, err, validation, ◌>>=◌, ◌>>◌, reject_if}
use coverage_mcp.FilePath.{join}
use coverage_mcp.Text.{show_ℕ}
use coverage_mcp.Text.Number.{parse_unsigned}

abbrev default_port : ℕ
default_port = 59471

abbrev default_run_retention : ℕ
default_run_retention = 100

abbrev default_run_concurrency : ℕ
default_run_concurrency = 4

abbrev default_mcp_http_concurrency : ℕ
default_mcp_http_concurrency = 16

abbrev default_db_pool_size : ℕ
default_db_pool_size = 4

abbrev default_db_acquire_timeout_ms : ℕ
default_db_acquire_timeout_ms = 5000

abbrev default_db_query_timeout_ms : ℕ
default_db_query_timeout_ms = 30000

abbrev default_http_request_timeout_seconds : ℕ
default_http_request_timeout_seconds = 60

abbrev default_http_max_body_bytes : ℕ
default_http_max_body_bytes = 1048576

abbrev pub min_http_max_body_bytes : ℕ
min_http_max_body_bytes = 1024

abbrev pub max_http_max_body_bytes : ℕ
max_http_max_body_bytes = 16 * 1024 * 1024

abbrev default_run_log_max_bytes : ℕ
default_run_log_max_bytes = 10 * 1024 * 1024

abbrev pub min_run_log_max_bytes : ℕ
min_run_log_max_bytes = 1024

abbrev pub max_run_log_max_bytes : ℕ
max_run_log_max_bytes = 1024 * 1024 * 1024

abbrev default_compaction_after_days : ℕ
default_compaction_after_days = 30

abbrev default_compaction_interval_seconds : ℕ
default_compaction_interval_seconds = 3600

abbrev default_compaction_batch_size : ℕ
default_compaction_batch_size = 100

pub record ServerConfig : Type 0 where
  pub host : String
  pub port : ℕ
  pub default_repository_path : Option String
  pub common_db_path : String
  pub run_retention : ℕ
  pub run_concurrency : ℕ
  pub mcp_http_concurrency : ℕ
  pub db_pool_size : ℕ
  pub db_acquire_timeout_ms : ℕ
  pub db_query_timeout_ms : ℕ
  pub http_request_timeout_seconds : ℕ
  pub http_max_body_bytes : ℕ
  pub run_log_max_bytes : ℕ
  pub default_compaction_after_days : ℕ
  pub default_compaction_interval_seconds : ℕ
  pub default_compaction_batch_size : ℕ

abbrev pub max_u64 : ℕ
max_u64 = 2 ^ 64 - 1

-- the number that a variable holds, or the default where it is not set
unfoldable pub read_number : ℕ → String → ℕ → Option String → AppResult ℕ
unfolding parse_unsigned
read_number limit name default none = ok default
read_number limit name default (some raw) = elim (parse_unsigned limit raw) [
  | some value ↦ ok value
  | none ↦ err (validation (name ++ " must be an integer"))
]

abbrev pub out_of_range : String → ℕ → ℕ → AppError
out_of_range name low high =
    validation (name ++ (" must be between " ++ (show_ℕ low ++ (" and " ++ show_ℕ high))))

module _ (lookup : String → Option String) where
  -- `env_usize`, `env_u32` and `env_u64` differ in the limit of their numbers.
  unfoldable pub env_number : ℕ → String → ℕ → ℕ → ℕ → AppResult ℕ
  unfolding read_number
  env_number limit name default low high = do
    value ← read_number limit name default (lookup name)
    reject_if (not (leb low value && leb value high)) (out_of_range name low high)
    ok value

  abbrev pub env_usize : String → ℕ → ℕ → ℕ → AppResult ℕ
  env_usize = env_number max_u64

  abbrev pub env_u32 : String → ℕ → ℕ → ℕ → AppResult ℕ
  env_u32 = env_number (2 ^ 32 - 1)

  abbrev pub env_u64 : String → ℕ → ℕ → ℕ → AppResult ℕ
  env_u64 = env_number max_u64

  unfoldable pub default_common_db_path : String
  default_common_db_path =
      unwrap_or (lookup "COVERAGE_MCP_COMMON_DB")
        (join (join (unwrap_or (lookup "HOME") ".") ".coverage-mcp") "common.duckdb")

  unfoldable pub port_of : Option ℕ → AppResult ℕ
  unfolding parse_unsigned
  port_of (some port) = ok port
  port_of none = elim (lookup "COVERAGE_MCP_PORT") [
    | none ↦ ok default_port
    | some raw ↦ elim (parse_unsigned (2 ^ 16 - 1) raw) [
      | some port ↦ ok port
      | none ↦ err (validation "COVERAGE_MCP_PORT must be an integer between 0 and 65535")
    ]
  ]

  abbrev or_variable : Option String → String → Option String
  or_variable (some value) name = some value
  or_variable none name = lookup name

  unfoldable pub from_environment :
      Option String → Option ℕ → Option String → AppResult ServerConfig
  unfolding env_number default_common_db_path port_of
  from_environment host port common_db_path = do
    port' ← port_of port
    retention ← env_usize "COVERAGE_MCP_RUN_RETENTION" default_run_retention 1 10000
    workers ← env_usize "COVERAGE_MCP_RUN_CONCURRENCY" default_run_concurrency 1 32
    requests ← env_usize "COVERAGE_MCP_HTTP_CONCURRENCY" default_mcp_http_concurrency 1 128
    pool ← env_usize "COVERAGE_MCP_DB_POOL_SIZE" default_db_pool_size 1 16
    acquire ← env_u64 "COVERAGE_MCP_DB_ACQUIRE_TIMEOUT_MS" default_db_acquire_timeout_ms 50 120000
    query ← env_u64 "COVERAGE_MCP_DB_QUERY_TIMEOUT_MS" default_db_query_timeout_ms 100 3600000
    http ←
        env_u64 "COVERAGE_MCP_HTTP_REQUEST_TIMEOUT_SECONDS" default_http_request_timeout_seconds 1
          3600
    body ←
        env_usize "COVERAGE_MCP_HTTP_MAX_BODY_BYTES" default_http_max_body_bytes
          min_http_max_body_bytes max_http_max_body_bytes
    log ←
        env_u64 "COVERAGE_MCP_RUN_LOG_MAX_BYTES" default_run_log_max_bytes min_run_log_max_bytes
          max_run_log_max_bytes
    reject_if (leb (min (http * 1000) max_u64) query) (
        validation "COVERAGE_MCP_DB_QUERY_TIMEOUT_MS must be shorter than the HTTP request timeout")
    days ← env_u32 "COVERAGE_MCP_COMPACTION_AFTER_DAYS" default_compaction_after_days 1 36500
    interval ←
        env_u64 "COVERAGE_MCP_COMPACTION_INTERVAL_SECONDS" default_compaction_interval_seconds 60
          86400
    batch ← env_u32 "COVERAGE_MCP_COMPACTION_BATCH_SIZE" default_compaction_batch_size 1 10000
    ok (record {
      host = unwrap_or (or_variable host "COVERAGE_MCP_HOST") "127.0.0.1";
      port = port';
      default_repository_path = none;
      common_db_path =
          unwrap_or (or_variable common_db_path "COVERAGE_MCP_COMMON_DB") default_common_db_path;
      run_retention = retention;
      run_concurrency = workers;
      mcp_http_concurrency = requests;
      db_pool_size = pool;
      db_acquire_timeout_ms = acquire;
      db_query_timeout_ms = query;
      http_request_timeout_seconds = http;
      http_max_body_bytes = body;
      run_log_max_bytes = log;
      default_compaction_after_days = days;
      default_compaction_interval_seconds = interval;
      default_compaction_batch_size = batch;
    })
