-- ===== src/Config/HwConfig.antt =====
-- src/intfd_ovsdb_if.c: set_intf_hw_config_in_db, which writes the error and the new map
-- hw_intf_config to the row of an interface.
pub mod Keys
pub mod RoundTrip
use ops_intfd.Prelude.{
  ℕ, zero, suc, ℤ, pos, ◌==ℤ◌, ltbℤ, Bool, true, false, ◌&&◌, ◌||◌, not, Option, none, some, List,
  [], ◌∷◌, ◌++◌, if◌then◌else◌,
}
use ops_intfd.CString.{CString, str_eq, print_int, int_of_bits}
use ops_intfd.Smap.{Smap, smap_add}
use ops_intfd.Schema.{Idl, HwPause, HwDuplex, HwConfigKey}
use ops_intfd.Database.{Ifrow}
use ops_intfd.Interface.{
  Iface, IntfOperState, autoneg_state_enabled, min_allowed_user_specified_mtu,
}
use ops_intfd.Utils.{get_error_str, get_intf_type_str}

-- The loop that appends ",%d" for the next entries of the array; "%d" reads the uint32_t as an int.
unfoldable pub append_speeds : ℕ → List ℕ → CString
append_speeds zero speeds = []
append_speeds (suc n) [] = []
append_speeds (suc n) (s ∷ speeds) = (b',' ∷ print_int (int_of_bits s)) ++ append_speeds n speeds

unfoldable pub speed_string : ℕ → List ℕ → CString
unfolding append_speeds
speed_string (suc n) (s ∷ speeds) = print_int (int_of_bits s) ++ append_speeds n speeds
speed_string n speeds = []

module _ ⦃idl : Idl⦄ where
  open idl use {
    hw_config_key, enable_true, enable_false, hw_autoneg_on, hw_autoneg_off, hw_pause_name,
    hw_duplex_name, type_internal, type_vlansubint, type_loopback,
  }

  abbrev pub pause_string : HwPause → CString
  pause_string HwPause.rxtx = hw_pause_name HwPause.rxtx
  pause_string HwPause.tx = hw_pause_name HwPause.tx
  pause_string HwPause.rx = hw_pause_name HwPause.rx
  pause_string HwPause.no_pause = hw_pause_name HwPause.no_pause

  abbrev pub duplex_string : HwDuplex → CString
  duplex_string HwDuplex.half = hw_duplex_name HwDuplex.half
  duplex_string HwDuplex.full = hw_duplex_name HwDuplex.full

  abbrev pub autoneg_string : ℤ → CString
  autoneg_string state = if state ==ℤ autoneg_state_enabled then hw_autoneg_on else hw_autoneg_off

  -- The test on the type, as it is written.
  abbrev pub is_type_written : Iface → Bool
  is_type_written intf =
      not (str_eq intf.type type_internal)
      || not (str_eq intf.type type_vlansubint)
      || not (str_eq intf.type type_loopback)

  abbrev add_mtu : ℤ → Smap → Smap
  add_mtu mtu m =
      if ltbℤ mtu (pos min_allowed_user_specified_mtu)
      then m
      else smap_add m (hw_config_key HwConfigKey.mtu) (print_int mtu)

  abbrev add_speeds : ℤ → List ℕ → Smap → Smap
  add_speeds (pos (suc n)) speeds m =
      smap_add m (hw_config_key HwConfigKey.speeds) (speed_string (suc n) speeds)
  add_speeds n_speeds speeds m = m

  -- The entries of an enabled interface, after that for `enable`.
  unfoldable pub add_details : Iface → Smap → Smap
  add_details intf m =
      let op = intf.op_state in
      let m1 = smap_add m (hw_config_key HwConfigKey.autoneg) (autoneg_string op.autoneg_state) in
      let m2 = smap_add m1 (hw_config_key HwConfigKey.duplex) (duplex_string op.duplex) in
      let m3 = smap_add m2 (hw_config_key HwConfigKey.pause) (pause_string op.pause) in
      let m4 = add_mtu op.mtu m3 in
      let m5 = add_speeds op.n_speeds op.speeds m4 in
      smap_add m5 (hw_config_key HwConfigKey.interface_type)
        (get_intf_type_str intf.pm_info.intf_type)

  unfoldable pub new_hw_config : Iface → Smap
  new_hw_config intf =
      let m =
        smap_add [] (hw_config_key HwConfigKey.enable)
          (if intf.op_state.enabled then enable_true else enable_false) in
      if intf.op_state.enabled && is_type_written intf then add_details intf m else m

  unfoldable pub set_intf_hw_config_in_db : Ifrow → Iface → Ifrow
  set_intf_hw_config_in_db row intf = record row {
    error = if intf.op_state.enabled then none else some (get_error_str intf.op_state.reason);
    hw_intf_config = new_hw_config intf;
  }
