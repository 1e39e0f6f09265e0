-- ===== src/Filter.antt =====
-- src/services/filter: the expression language of the monitors and the filter of EVM blocks.
pub mod Expression
pub mod Evm
