-- ===== src/Generator.antt =====
-- `TradeGenerator` of ingestion/src/trade_sim/generator.py, in its parts.
pub mod Draws
pub mod Fields
pub mod Build
pub mod Faults
pub mod Run
pub mod Clock
pub mod Readable
pub mod Fresh
pub mod Ingredients
pub mod Events
pub mod Pools
pub mod Emit
pub mod Kinds
pub mod Settling
pub mod Step
pub mod Keys
pub mod Batch
