-- ===== src/Market.antt =====
-- eBay prices of one market: packages/market-price/src/soldgraph.ts.
pub mod Amounts
pub mod Prices
pub mod Observations
pub mod Places
pub mod Pages
pub mod Evaluate
pub mod Outliers
pub mod Histogram
pub mod Statistics
mod Examples
