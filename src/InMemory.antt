-- ===== src/InMemory.antt =====
-- basic/src/apps/implementationA: the program that holds all trips in memory, as records
-- (phase 2) or as columns (phase 3), and counts and finds those that match a query, with one thread
-- or with several. Record and Columns are the stores, Query and Threads the queries; Parser, Reader
-- and Ingest read the files, and Runner is the benchmark over columns.
-- Representation relates columns to records, Filling and Interleaving are about the threads of a
-- query, Agreement about the queries, Slots and Phases about the ingests, Quoting, Carried and
-- Reading about the rows of a file.
pub mod Record
pub mod Columns
pub mod Representation
pub mod Query
pub mod Threads
pub mod Filling
pub mod Interleaving
pub mod Agreement
pub mod Parser
pub mod Ingest
pub mod Slots
pub mod Phases
pub mod Quoting
pub mod Runner
pub mod Carried
pub mod Reader
pub mod Reading
