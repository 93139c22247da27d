-- ===== src/Tests.antt =====
-- Tests and examples: the theorems at concrete inputs.
pub mod Queue
pub mod RateLimiter
pub mod Stores
pub mod Streams
pub mod Requests
pub mod Server
pub mod Handlers
pub mod Urls
pub mod Boot
