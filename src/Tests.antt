-- ===== src/Tests.antt =====
-- The theorems at work on concrete inputs, a module for each part.
mod Digests
mod Grammars
mod MakefileGrammars
mod Conversions
mod Manifests
mod Makefiles
mod Components
mod Comparisons
mod Versions
mod Specfiles
mod Commands
mod Show
mod Builds
