-- ===== src/Skiff.antt =====
-- crates/ytsaurus-skiff: schemas, formats, and the codec of the rows that they describe.
pub mod Schema
pub mod Format
pub mod Wire
