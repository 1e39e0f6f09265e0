-- ===== src/Tests.antt =====
-- Runs of the modelled code on concrete data.
mod Data
mod Tracker
mod Pipeline
mod Storage
mod Recovery
mod Service
mod Watchers
mod Transport
mod Config
mod Expressions
mod Filter
mod Bootstrap
mod Monitoring
