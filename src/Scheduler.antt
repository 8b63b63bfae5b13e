-- ===== src/Scheduler.antt =====
-- The scheduler plugin (noderesourcesfit/pkg/plugins/noderesources/fit.go).
pub mod Slices
pub mod Demand
pub mod Gpus
pub mod Fit
pub mod Cycle
pub mod Phases
pub mod Permit
pub mod Score
pub mod Samples
