-- ===== src/Error/Message.antt =====
-- What an error of src/error.rs prints, and the error of another crate that it comes from.
use coverage_mcp.Prelude.{String, ◌≡◌, refl, Option, none, some, [], ◌∷◌}
use coverage_mcp.Error.{
  AppError, storage, pool, io, json, xml, http_body, validation, not_found, runtime, busy, timeout,
}
use coverage_mcp.Text.{concat, show_ℕ}

-- `Display::fmt`
unfoldable message : AppError → String
unfolding concat show_ℕ
message (storage e) = concat ("storage error: " ∷ e ∷ [])
message (pool e) = concat ("connection pool error: " ∷ e ∷ [])
message (io e) = concat ("I/O error: " ∷ e ∷ [])
message (json e) = concat ("JSON error: " ∷ e ∷ [])
message (xml e) = concat ("XML error: " ∷ e ∷ [])
message (http_body e) = concat ("request body could not be read: " ∷ e ∷ [])
message (validation text) = text
message (not_found text) = text
message (runtime text) = text
message (busy resource holder) = concat ("resource busy: " ∷ resource ∷ holder ∷ [])
message (timeout operation ms) = concat (operation ∷ " timed out after " ∷ show_ℕ ms ∷ " ms" ∷ [])

-- `Error::source`
unfoldable source : AppError → Option String
source (storage e) = some e
source (pool e) = some e
source (io e) = some e
source (json e) = some e
source (xml e) = some e
source (http_body e) = some e
source (validation _) = none
source (not_found _) = none
source (runtime _) = none
source (busy _ _) = none
source (timeout _ _) = none

message_test : message (timeout "query" 30000) ≡ "query timed out after 30000 ms"
unfolding message
message_test = refl

source_test : source (io "denied") ≡ some "denied"
unfolding source
source_test = refl
