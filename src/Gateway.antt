-- ===== src/Gateway.antt =====
-- crates/gateway/src: the gateway, which answers a request from the cache or asks the vendor.
pub mod Config
pub mod Errors
pub mod Response
pub mod Singleflight
pub mod Clients
pub mod Streaming
pub mod CacheFlow
pub mod Vendor
