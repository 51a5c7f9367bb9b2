-- ===== src/Channel.antt =====
-- The pool of upstream channels: internal/channel.
pub mod Breaker
pub mod Manager
