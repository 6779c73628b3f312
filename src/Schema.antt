-- ===== src/Schema.antt =====
-- schema: what every SQL dialect writes alike, and the formatter of queries with placeholders.
pub mod BaseDialect
pub mod Literals
pub mod Formatter
pub mod Template
pub mod Arguments
pub mod Placeholders
pub mod Progress
mod Tests
