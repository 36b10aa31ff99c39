-- ===== src/Csv.antt =====
-- basic/src/dataset/PartitionCsvParser.hpp: the CSV parser that the query engine uses.
pub mod Fields
pub mod Money
pub mod Dates
pub mod Row
