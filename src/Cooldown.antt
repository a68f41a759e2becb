-- ===== src/Cooldown.antt =====
-- packages/cooldown/src: buckets of uses per command and target.
pub mod Numbers
pub mod Resource
pub mod Bucket
pub mod Script
pub mod Key
pub mod Commands
pub mod Manager
pub mod Tests
