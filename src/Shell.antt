-- ===== src/Shell.antt =====
-- What all pages of the web shell share (lib, project).
pub mod Shortcuts
pub mod Keys
pub mod EventBus
pub mod Delivery
pub mod Project
pub mod PouNames
pub mod NewBlocks
