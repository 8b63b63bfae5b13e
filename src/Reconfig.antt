-- ===== src/Reconfig.antt =====
-- The MIG reconfiguration controllers (reconfig/kubecomp-mig).
pub mod Queue
pub mod Config
pub mod Selector
pub mod Usage
pub mod Location
pub mod Stopping
pub mod Reconcile
pub mod Preprocess
