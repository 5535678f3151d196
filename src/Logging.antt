-- ===== src/Logging.antt =====
-- logging/log.c: the collector's counters and its log.
pub mod Log
pub mod Buffer
pub mod Calls
pub mod Accounts
mod Examples
