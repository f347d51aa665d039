-- ===== src/Soldgraph.antt =====
-- The eBay sold-listing source: packages/market-price/src/soldgraph.ts, soldgraph-workflow.ts and
-- soldgraph-usage.ts.
pub mod Request
pub mod Workflow
pub mod Ledger
pub mod Usage
mod Examples
