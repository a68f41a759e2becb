-- ===== src/Scaler.antt =====
-- packages/scaler/src: where the workers of a bot are placed, and the master of its machines.
pub mod Placement
pub mod Master
