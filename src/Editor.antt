-- ===== src/Editor.antt =====
-- The graph editor page (veri-ide/web/src/pages/GraphEditorPage.tsx) and its inspector
-- (components/graph/Inspector.tsx): what an action does to the open document.
pub mod Names
pub mod Fresh
pub mod Actions
pub mod Shape
pub mod Inspector
pub mod Library
pub mod Additions
pub mod Renaming
pub mod Valid
pub mod Growing
pub mod Merging
pub mod Unwired
pub mod Reaching
pub mod Session
pub mod Saving
pub mod Reports
pub mod Marking
pub mod Palette
pub mod Offers
pub mod Jump
pub mod Runs
pub mod Measuring
pub mod Tabs
pub mod Checking
