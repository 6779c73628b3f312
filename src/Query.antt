-- ===== src/Query.antt =====
-- The query builders of the root package: text that is put together clause by clause.
pub mod Fragment
pub mod Base
pub mod Where
pub mod IndexHints
pub mod Select
pub mod Balance
pub mod Join
pub mod Values
pub mod Maps
pub mod Update
pub mod Delete
pub mod Insert
pub mod Rows
pub mod Guard
pub mod Chosen
pub mod Sample
pub mod Definition
mod Tests
mod WriteTests
mod DefinitionTests
