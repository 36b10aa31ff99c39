-- ===== src/Model.antt =====
-- The data that the nodes exchange: basic/src/model.
pub mod Trip
pub mod Request
pub mod Result
