-- ===== src/Car.antt =====
-- CAR files as streams: car/.
pub mod Writer
pub mod Layout
pub mod Resume
pub mod Walk
pub mod Whole
pub mod Parts
pub mod Reads
pub mod Search
pub mod Refs
pub mod Dropped
mod Tests
