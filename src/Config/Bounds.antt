-- ===== src/Config/Bounds.antt =====
-- A configuration that is built keeps the limits of src/config.rs.
use coverage_mcp.Prelude.{
  ℕ, ◌*◌, ◌^◌, ◌-◌, ◌≤◌, ◌<◌, ◌≡◌, refl, inl, inr, Option-cases, String, Option, none, some, arith,
  min, leb, ◌&&◌, if◌then◌else◌,
}
use coverage_mcp.Error.{ok, err}
use coverage_mcp.Error.Ensures.{Ensures, Ensures-ok, Ensures-then, Ensures-check}
use coverage_mcp.Text.{show_ℕ}
use coverage_mcp.Text.Number.{parse_unsigned-le, parse_unsigned-show}
use coverage_mcp.Config.{ServerConfig, max_u64, out_of_range, env_number, port_of, from_environment}

abbrev Within : ℕ → ℕ → ℕ → Type 0
Within low high n = (low ≤ n) × (n ≤ high)

-- the limits that the source names for each variable
pub record IsBounded (c : ServerConfig) : Type 0 where
  pub port : c.port < 2 ^ 16
  pub run_retention : Within 1 10000 c.run_retention
  pub run_concurrency : Within 1 32 c.run_concurrency
  pub mcp_http_concurrency : Within 1 128 c.mcp_http_concurrency
  pub db_pool_size : Within 1 16 c.db_pool_size
  pub db_acquire_timeout_ms : Within 50 120000 c.db_acquire_timeout_ms
  pub db_query_timeout_ms : Within 100 3600000 c.db_query_timeout_ms
  pub http_request_timeout_seconds : Within 1 3600 c.http_request_timeout_seconds
  pub http_max_body_bytes : Within 1024 16777216 c.http_max_body_bytes
  pub run_log_max_bytes : Within 1024 1073741824 c.run_log_max_bytes
  pub default_compaction_after_days : Within 1 36500 c.default_compaction_after_days
  pub default_compaction_interval_seconds : Within 60 86400 c.default_compaction_interval_seconds
  pub default_compaction_batch_size : Within 1 10000 c.default_compaction_batch_size
  -- a query times out before its request does
  pub query_first : c.db_query_timeout_ms < c.http_request_timeout_seconds * 1000

module _ (lookup : String → Option String) where
  env_number-Within :
      (limit : ℕ) (name : String) (default low high : ℕ)
      → Ensures (Within low high) (env_number lookup limit name default low high)
  unfolding env_number
  env_number-Within limit name default low high = record { at = λ n h. ground arith }

  port_of-lt :
      (port : Option ℕ)
      → ((p : ℕ) → port ≡ some p → p < 2 ^ 16)
      → Ensures (λ n. n < 2 ^ 16) (port_of lookup port)
  unfolding port_of
  port_of-lt (some p) small = Ensures-ok p (small p refl)
  port_of-lt none small = record {
    at = λ n h. elim (Option-cases (lookup "COVERAGE_MCP_PORT")) [
      | inl unset ↦ ground (arith, unset)
      | inr (raw, given) ↦ ground (arith, given, parse_unsigned-le (2 ^ 16 - 1) raw n)
    ];
  }

  from_environment-Ensures :
      (host : Option String) (port : Option ℕ) (db : Option String)
      → ((p : ℕ) → port ≡ some p → p < 2 ^ 16)
      → Ensures IsBounded (from_environment lookup host port db)
  unfolding from_environment
  from_environment-Ensures host port db small = Ensures-then _ _ (port_of-lt port small) λ p hp.
      Ensures-then _ _ (env_number-Within _ _ _ _ _) λ retention h_retention.
        Ensures-then _ _ (env_number-Within _ _ _ _ _) λ workers h_workers.
          Ensures-then _ _ (env_number-Within _ _ _ _ _) λ requests h_requests.
            Ensures-then _ _ (env_number-Within _ _ _ _ _) λ pool h_pool.
              Ensures-then _ _ (env_number-Within _ _ _ _ _) λ acquire h_acquire.
                Ensures-then _ _ (env_number-Within _ _ _ _ _) λ query h_query.
                  Ensures-then _ _ (env_number-Within _ _ _ _ _) λ http h_http.
                    Ensures-then _ _ (env_number-Within _ _ _ _ _) λ body h_body.
                      Ensures-then _ _ (env_number-Within _ _ _ _ _) λ log h_log.
                        Ensures-check (leb (min (http * 1000) max_u64) query) _ _ λ first.
                          Ensures-then _ _ (env_number-Within _ _ _ _ _) λ days h_days.
                            Ensures-then _ _ (env_number-Within _ _ _ _ _) λ interval h_interval.
                              Ensures-then _ _ (env_number-Within _ _ _ _ _)
                                λ batch h_batch. Ensures-ok _ (ground arith)

  -- For any environment and a given port, if any, below 2^16: a configuration that is built keeps
  -- the limits of every variable, and its database timeout is shorter than its request timeout.
  pub from_environment-IsBounded :
      (host : Option String) (port : Option ℕ) (db : Option String) (c : ServerConfig)
      → ((p : ℕ) → port ≡ some p → p < 2 ^ 16)
      → from_environment lookup host port db ≡ ok c
      → IsBounded c
  from_environment-IsBounded host port db c small built =
      (from_environment-Ensures host port db small).at c built

  -- If a variable is set to a number as it is shown, within the limit of its type, that number is
  -- used if it is between the bounds of the variable, and otherwise the error that names these
  -- bounds is returned.
  pub env_number-show :
      (limit : ℕ) (name : String) (default low high n : ℕ)
      → lookup name ≡ some (show_ℕ n)
      → n ≤ limit
      → env_number lookup limit name default low high
        ≡ (if leb low n && leb n high then ok n else err (out_of_range name low high))
  unfolding env_number
  env_number-show limit name default low high n given fits =
      ground (arith, given, parse_unsigned-show limit n fits)
