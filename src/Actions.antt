-- ===== src/Actions.antt =====
-- libips/src/actions/mod.rs: the actions of a package manifest and how a manifest is read.
pub mod Action
pub mod Facet
pub mod Dir
pub mod File
pub mod Dependency
pub mod Attr
pub mod License
pub mod Link
pub mod Manifest
