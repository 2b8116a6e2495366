-- ===== src/Sim.antt =====
-- Simulation runs as the editor shows and requests them: components/graph/types.ts (values, forces,
-- stimulus) and components/graph/SimPanel.tsx (the cycle that is shown).
pub mod Types
pub mod Values
pub mod Stimulus
pub mod Timeline
pub mod Shown
pub mod Requests
