-- ===== src/Lang.antt =====
-- The string operations of the language that the editor's code relies on.
pub mod Chars
pub mod Decimal
pub mod Trim
pub mod Split
pub mod Grouped
