-- ===== src/FileInput.antt =====
-- The package plugin/input/file: files are read in chunks, cut into lines, and their offsets kept.
pub mod Worker
pub mod Offsets
pub mod Jobs
