-- ===== src/Scanner.antt =====
-- The scanner (src/scanner): the queue of market events and the health of venues.
pub mod Queue
pub mod Health
pub mod Numbers
pub mod Statistics
pub mod Validation
pub mod Ranking
pub mod Cache
pub mod Cadence
pub mod Fills
pub mod Legs
pub mod Profit
pub mod Liquidity
