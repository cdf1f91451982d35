-- ===== src/Tests.antt =====
-- Concrete inputs on which the theorems are applied, and runs of the definitions.
mod Protocol
mod Barrier
mod Stages
mod Services
mod Inspection
mod Cleanup
mod Gallery
mod Reconcile
