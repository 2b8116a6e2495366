-- ===== src/Blocks.antt =====
-- The block library's editor (components/library).
pub mod Types
pub mod History
pub mod Pushing
pub mod Undoing
pub mod Zipper
pub mod Refining
pub mod Symbols
pub mod Distinct
pub mod Grid
pub mod Held
pub mod Replay
pub mod Truth
pub mod Ports
pub mod Ranges
pub mod Shelf
pub mod Svg
pub mod Skeleton
pub mod Naming
pub mod Combinations
pub mod Cycles
pub mod Requests
pub mod Libraries
