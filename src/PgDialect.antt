-- ===== src/PgDialect.antt =====
-- dialect/pgdialect: PostgreSQL arrays and hstore values, as SQL text and as read back.
-- A `*streamParser` is the bytes that it has not read yet, `b[i:]`.
pub mod Append
pub mod Parser
pub mod Scan
pub mod Hstore
pub mod Progress
pub mod HstoreProgress
pub mod ArrayText
pub mod Escape
pub mod RoundTrip
pub mod HstoreText
pub mod HstoreRoundTrip
mod Tests
