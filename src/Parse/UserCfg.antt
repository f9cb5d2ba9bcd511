-- ===== src/Parse/UserCfg.antt =====
-- The parsing of an interface's hardware description and user configuration in
-- src/intfd_ovsdb_if.c: intfd_parse_hw_info and intfd_parse_user_cfg.
pub mod Columns
use ops_intfd.Prelude.{
  ℕ, zero, suc, ◌+◌, ℤ, pos, negsuc, ltbℤ, Bool, true, false, ◌&&◌, ◌||◌, not, Option, none, some,
  List, [], ◌∷◌, ◌>>=◌, ◌==◌, ltb, leb, if◌then◌else◌, set, replicate,
}
use ops_intfd.CString.{CString, is_str, atoi_bits}
use ops_intfd.Smap.{Smap, smap_get}
use ops_intfd.Schema.{
  Idl, UserAdmin, UserAutoneg, UserPause, UserDuplex, LaneSplit, HwConnector, UserConfigKey,
  HwInfoKey,
}
use ops_intfd.Interface.{IntfHwInfo, IntfUserCfg}
use ops_intfd.Parse.Speeds.{no_speeds, parse_speeds, parse_user_speeds, parse_user_mtu}

module _ ⦃idl : Idl⦄ where
  open idl use {
    user_config_key, hw_info_key, admin_up, user_autoneg_name, user_pause_name, user_duplex_name,
    lane_split_name, pluggable_true, hw_connector_name,
  }

  unfoldable pub parse_hw_connector : Option CString → HwConnector
  parse_hw_connector str =
      if is_str str (hw_connector_name HwConnector.rj45)
      then HwConnector.rj45
      else if is_str str (hw_connector_name HwConnector.sfp_plus)
      then HwConnector.sfp_plus
      else if is_str str (hw_connector_name HwConnector.qsfp_plus)
      then HwConnector.qsfp_plus
      else if is_str str (hw_connector_name HwConnector.qsfp28)
      then HwConnector.qsfp28
      else HwConnector.unknown

  unfoldable pub parse_hw_info : Smap → IntfHwInfo
  unfolding parse_hw_connector parse_speeds
  parse_hw_info hw_info =
      let speeds : ℤ × List ℕ = elim (smap_get hw_info (hw_info_key HwInfoKey.speeds)) [
        | none ↦ (pos 0, no_speeds)
        | some str ↦ parse_speeds str no_speeds
      ] in
      record {
        is_pluggable = is_str (smap_get hw_info (hw_info_key HwInfoKey.pluggable)) pluggable_true;
        connector = parse_hw_connector (smap_get hw_info (hw_info_key HwInfoKey.connector));
        speeds = speeds.1;
        n_speeds = speeds.0;
        max_speed = elim (smap_get hw_info (hw_info_key HwInfoKey.max_speed)) [
          | none ↦ 0
          | some str ↦ atoi_bits str
        ];
      }

  unfoldable pub parse_admin : Smap → UserAdmin
  parse_admin config =
      if is_str (smap_get config (user_config_key UserConfigKey.admin)) admin_up
      then UserAdmin.up
      else UserAdmin.down

  unfoldable pub parse_autoneg : Smap → UserAutoneg
  parse_autoneg config =
      let str = smap_get config (user_config_key UserConfigKey.autoneg) in
      if is_str str (user_autoneg_name UserAutoneg.off)
      then UserAutoneg.off
      else if is_str str (user_autoneg_name UserAutoneg.on)
      then UserAutoneg.on
      else UserAutoneg.default

  unfoldable pub parse_pause : Smap → UserPause
  parse_pause config =
      let str = smap_get config (user_config_key UserConfigKey.pause) in
      if is_str str (user_pause_name UserPause.rxtx)
      then UserPause.rxtx
      else if is_str str (user_pause_name UserPause.tx)
      then UserPause.tx
      else if is_str str (user_pause_name UserPause.rx)
      then UserPause.rx
      else UserPause.no_pause

  unfoldable pub parse_duplex : Smap → UserDuplex
  parse_duplex config =
      if is_str (smap_get config (user_config_key UserConfigKey.duplex))
        (user_duplex_name UserDuplex.half)
      then UserDuplex.half
      else UserDuplex.full

  unfoldable pub parse_lane_split : Smap → LaneSplit
  parse_lane_split config =
      if is_str (smap_get config (user_config_key UserConfigKey.lane_split))
        (lane_split_name LaneSplit.split)
      then LaneSplit.split
      else LaneSplit.no_split

  -- `before` is what the structure held; `none` is a fault. The MTU of the subsystem is the global
  -- base_subsys.mtu.
  unfoldable pub parse_user_cfg : ℤ → IntfUserCfg → Smap → Smap → Option IntfUserCfg
  parse_user_cfg base_mtu before config hw_intf_info = do
    (n_speeds, speeds) ←
        parse_user_speeds before.speeds (smap_get config (user_config_key UserConfigKey.speeds))
          (smap_get hw_intf_info (hw_info_key HwInfoKey.speeds))
    some (record {
      admin_state = parse_admin config;
      autoneg = parse_autoneg config;
      pause = parse_pause config;
      duplex = parse_duplex config;
      lane_split = parse_lane_split config;
      speeds = speeds;
      n_speeds = n_speeds;
      mtu = parse_user_mtu base_mtu (smap_get config (user_config_key UserConfigKey.mtu));
    })
