-- ===== src/Graph.antt =====
-- The client of Microsoft Graph, crates/lnxdrive-graph.
pub mod TokenBucket
pub mod RateLimiter
pub mod Http
pub mod Delta
pub mod Upload
