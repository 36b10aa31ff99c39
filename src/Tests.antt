-- ===== src/Tests.antt =====
-- A small system, and each result applied to it.
mod Nodes
mod Overlays
mod Queries
mod Csv
mod Whole
mod Trips
mod Shards
mod Node
mod Memory
