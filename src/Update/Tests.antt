-- ===== src/Update/Tests.antt =====
-- handle_interfaces_config_mods of src/intfd_ovsdb_if.c on a row whose administrative state changed.
use ops_intfd.Prelude.{◌≡◌, refl, ◌⊎◌, [], none, some, true, false, pos}
use ops_intfd.Schema.{PortAdmin, UserAdmin, UserPause}
use ops_intfd.Schema.Sample.{sample}
use ops_intfd.Database.Sample.{blank_row}
use ops_intfd.Interface.{IntfUserCfg}
use ops_intfd.Interface.Sample.{sfp_intf, user_up}
use ops_intfd.Config.State.{Heap}
use ops_intfd.Parse.UserCfg.{
  parse_user_cfg, parse_admin, parse_autoneg, parse_pause, parse_duplex, parse_lane_split,
}
use ops_intfd.Parse.Speeds.{parse_user_speeds, parse_user_mtu}
use ops_intfd.Update.{reconfigure, update_modified}
use ops_intfd.Update.Merge.{refreshed, update_modified-refreshed}
use ops_intfd.StringMap.Assoc.{assoc_get}
use ops_intfd.CString.{is_str}

abbrev no_heap : Heap
no_heap _ = none

-- The configuration of a row without any key.
abbrev blank_cfg : IntfUserCfg
blank_cfg = record user_up { admin_state = UserAdmin.down; pause = UserPause.no_pause }

blank_cfg_parsed : parse_user_cfg (pos 9216) user_up [] [] ≡ some blank_cfg
unfolding parse_user_cfg parse_user_speeds parse_user_mtu parse_admin parse_autoneg parse_pause
    parse_duplex parse_lane_split assoc_get is_str
blank_cfg_parsed = refl

update_modified-refreshed_example :
    let found = refreshed sfp_intf PortAdmin.up blank_cfg none blank_row in
    let result = update_modified no_heap (pos 9216) user_up PortAdmin.up none blank_row sfp_intf in
    (result ≡ reconfigure no_heap blank_row found true)
    ⊎ ((result ≡ some (false, blank_row, found))
        × (sfp_intf.user_cfg ≡ found.user_cfg)
        × (sfp_intf.pm_info ≡ found.pm_info))
update_modified-refreshed_example =
    update_modified-refreshed no_heap (pos 9216) user_up PortAdmin.up none blank_row sfp_intf
      blank_cfg blank_cfg_parsed refl
