-- ===== src/Config.antt =====
-- The configuration of one interface in src/intfd_ovsdb_if.c: set_interface_config and what it
-- calls.
pub mod Capability
pub mod State
pub mod HwConfig
pub mod Set
mod Tests
