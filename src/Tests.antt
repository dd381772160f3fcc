-- ===== src/Tests.antt =====
-- Concrete inputs at which the theorems are applied: src/p2_satellite and core-side-patch.
pub mod Data
mod Derivation
mod Core
mod Hook
pub mod Store
mod Gaps
mod Router
pub mod Library
mod Satellite
mod Push
mod Jobs
