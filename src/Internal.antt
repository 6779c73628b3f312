-- ===== src/Internal.antt =====
-- internal: the helpers that the other packages share.
pub mod Parser
pub mod TagParser
pub mod Underscore
