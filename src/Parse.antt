-- ===== src/Parse.antt =====
-- The parsing of the database columns in src/intfd_ovsdb_if.c.
pub mod Speeds
pub mod UserCfg
pub mod PmInfo
mod Tests
