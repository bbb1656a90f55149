-- ===== src/Feed.antt =====
-- services/feed-adapter-synthetic: the synthetic price feed.
pub mod Distributions
pub mod Decimal
pub mod Generator
pub mod Concurrent
pub mod Calibration
pub mod Config
pub mod Process
pub mod Main
