-- ===== src/Chart.antt =====
-- The function-chart document and what the editor computes from it
-- (veri-ide/web/src/components/graph/types.ts).
pub mod Types
pub mod Geometry
pub mod Pins
pub mod Edit
pub mod Validity
pub mod Deletion
pub mod PinLaws
