-- ===== src/Tests.antt =====
-- The development's statements at concrete inputs, and runs of its definitions.
mod Session
mod Delivery
mod Records
mod Names
mod Runtime
mod Ci
mod Storage
mod Released
mod Git
mod Members
mod Main
mod Feed
mod Calibration
mod Concurrent
mod Process
mod Logs
