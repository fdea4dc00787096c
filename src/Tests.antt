-- ===== src/Tests.antt =====
-- Tests of the definitions, and each theorem with hypotheses at an input that meets them.
pub mod Samples
mod Sync
mod Blocks
mod Asynchronous
mod Descriptors
mod Manifests
mod Assemblies
mod Catalogs
mod Resources
mod Interleavings
mod Streams
mod Clients
