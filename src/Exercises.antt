-- ===== src/Exercises.antt =====
-- The exercises in the dated directories.
pub mod Calculator
pub mod Calendar
pub mod Stdio
pub mod WordCount
