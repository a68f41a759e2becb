-- ===== src/Proxy.antt =====
-- packages/proxy/src: the admission gates, the request scheduler, the contexts of tokens and the
-- deduplication of the REST proxy.
pub mod Gate
pub mod Scheduler
pub mod Body
pub mod Contexts
pub mod Protocol
pub mod Deduplication
