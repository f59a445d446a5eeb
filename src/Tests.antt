-- ===== src/Tests.antt =====
-- Concrete inputs, and the theorems applied to them.
mod Data
mod Hashes
mod Builders
mod Chunks
mod Trees
mod Plans
mod Compressions
mod Xorbs
mod Registrations
mod Quotas
mod Reconstructions
mod Paths
mod Tokens
