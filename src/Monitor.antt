-- ===== src/Monitor.antt =====
-- The monitor page (veri-ide/web/src/pages/MonitorPage.tsx) and its panels (components/monitor).
pub mod Params
pub mod Grouping
pub mod Batch
pub mod Watching
pub mod Channels
pub mod Wizard
pub mod Forces
