-- ===== src/Connector.antt =====
-- internal/connector: the sources that connectors find, and the connectors.
pub mod Types
pub mod Common
pub mod RepoUrl
pub mod ArgoCd
pub mod Flux
pub mod Tekton
pub mod Found
pub mod MergePatch
