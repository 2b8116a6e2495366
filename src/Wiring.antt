-- ===== src/Wiring.antt =====
-- Drawing on the sheet: wires, drags and the pin under the pointer
-- (veri-ide/web/src/components/graph/Sheet.tsx).
pub mod Draft
pub mod Drag
pub mod Commit
pub mod Target
pub mod Bounds
