-- ===== src/Pipeline.antt =====
-- src/base: the processing pipeline behind the readers. Each stage hands the blocks that it receives
-- to a pool of threads and passes the results on.
pub mod Pool
pub mod Handler
pub mod Order
pub mod Drain
pub mod Sorter
pub mod Sorting
mod Tests
mod SorterTests
