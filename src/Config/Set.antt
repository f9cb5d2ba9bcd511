-- ===== src/Config/Set.antt =====
-- src/intfd_ovsdb_if.c: set_interface_config, the whole configuration of one interface.
pub mod Outcome
pub mod Priority
pub mod History
use ops_intfd.Prelude.{Option, none, some, ◌>>=◌, if◌then◌else◌}
use ops_intfd.Schema.{Idl}
use ops_intfd.Database.{Ifrow}
use ops_intfd.Interface.{Iface}
use ops_intfd.Config.Capability.{validate_capability}
use ops_intfd.Config.State.{
  Heap, set_op_state_mtu, set_op_state_pause, set_op_state_duplex, calc_intf_op_state_n_reason,
}
use ops_intfd.Config.HwConfig.{set_intf_hw_config_in_db}

module _ ⦃idl : Idl⦄ where
  -- What is set only in an enabled interface.
  abbrev pub set_link : Iface → Iface
  set_link intf =
      if intf.op_state.enabled then set_op_state_duplex (set_op_state_pause intf) else intf

  -- The row and the interface as they are left; `none` is a read through a dangling pointer.
  unfoldable pub set_interface_config : Heap → Ifrow → Iface → Option (Ifrow × Iface)
  set_interface_config heap row intf = do
    calculated ← calc_intf_op_state_n_reason heap (validate_capability (set_op_state_mtu intf))
    some (set_intf_hw_config_in_db row (set_link calculated), set_link calculated)
