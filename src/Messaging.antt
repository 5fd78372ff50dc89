-- ===== src/Messaging.antt =====
-- src/messaging: conversations of several agents.
pub mod Router
pub mod Audit
