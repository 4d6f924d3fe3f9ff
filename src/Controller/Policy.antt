-- ===== src/Controller/Policy.antt =====
-- internal/controller/policy_controller.go
pub mod Select
pub mod Thresholds
pub mod Workloads
pub mod Suspend
pub mod Restore
pub mod Enforce
pub mod Frame
