-- ===== src/Autoscaler.antt =====
-- The Autoscaler program (Autoscaler/*.go).
pub mod Traffic
pub mod Resource
pub mod Registry
pub mod Scaler
pub mod Knative
pub mod Apply
pub mod Process
pub mod Exporter
pub mod Configuration
pub mod Revisions
mod Samples
