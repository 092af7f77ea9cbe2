-- ===== src/Tests.antt =====
-- The sample data, and the theorems applied to it.
mod Samples
mod Stores
mod Reads
mod Monitors
mod Routes
mod Evictions
mod Deltas
mod Overlays
mod Trees
mod Tags
mod Supervision
mod Histories
mod Names
