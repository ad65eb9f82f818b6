-- ===== src/RawData.antt =====
-- The raw data format of src/raw_data: event words, frames in shared memory, and their fields.
pub mod EventWord
pub mod Frame
pub mod Fields
pub mod Header
mod Tests
