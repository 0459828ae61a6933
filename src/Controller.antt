-- ===== src/Controller.antt =====
-- internal/controller: the reconcilers of the operator.
pub mod Names
pub mod Render
pub mod Common
pub mod Cluster
pub mod Dispatch
pub mod Reconcile
pub mod Rendered
pub mod Environment
