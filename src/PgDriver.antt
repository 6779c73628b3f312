-- ===== src/PgDriver.antt =====
-- driver/pgdriver: the driver's own formatting of queries with arguments.
pub mod Format
pub mod Queries
pub mod Progress
pub mod Wire
pub mod Messages
pub mod Replies
mod Tests
mod WireTests
