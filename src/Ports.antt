-- ===== src/Ports.antt =====
-- The crate `ports`: building a package from a spec file.
pub mod System
pub mod Quiet
pub mod After
pub mod Sources
pub mod Workspace
pub mod Command
