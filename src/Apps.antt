-- ===== src/Apps.antt =====
-- The command line programs under apps.
pub mod Arguments
pub mod Spelling
pub mod Tool
pub mod Record
pub mod Producers
pub mod Bench
