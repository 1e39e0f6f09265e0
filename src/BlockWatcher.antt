-- ===== src/BlockWatcher.antt =====
-- src/services/blockwatcher: the pipeline that fetches new blocks, keeps track of what was
-- processed, stores missed blocks and recovers them.
pub mod Tracker
pub mod Pipeline
pub mod Storage
pub mod Client
pub mod Recovery
pub mod Service
pub mod Watchers
