-- ===== src/Logger.antt =====
-- The three programs of `logger/`: the collector and the endpoint share a log file, the sender reads
-- from the endpoint.
pub mod Entry
pub mod Collector
pub mod Endpoint
pub mod Sender
