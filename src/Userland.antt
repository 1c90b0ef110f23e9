-- ===== src/Userland.antt =====
-- userland/src: component makefiles, what they say of a component, and its newest version.
pub mod Makefile
pub mod Component
pub mod Repology
