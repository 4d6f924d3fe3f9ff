-- ===== src/Controller.antt =====
-- internal/controller: the four reconcilers and the registry that they share.
pub mod Report
pub mod Policy
pub mod Discovery
pub mod Analysis
