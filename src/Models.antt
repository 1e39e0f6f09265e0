-- ===== src/Models.antt =====
-- src/models: the blocks of the four chains and the configuration of a network.
pub mod Parse
pub mod Block
pub mod Network
pub mod NetworkConfig
pub mod Monitor
pub mod Trigger
pub mod Evm
