-- ===== src/Station.antt =====
-- The hardware of a station and the points bound to it (pages/DevicePage.tsx, components/device).
pub mod Types
pub mod Labels
pub mod Points
pub mod Board
pub mod Coverage
pub mod Batch
pub mod Actions
pub mod Guarded
pub mod Edits
pub mod Renaming
pub mod Refreshing
pub mod Commands
pub mod Form
