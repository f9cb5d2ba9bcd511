-- ===== src/Config/Tests.antt =====
-- set_interface_config of src/intfd_ovsdb_if.c on one interface that comes up and one that does not.
use ops_intfd.Prelude.{take, pos, [], ◌∷◌, ◌≡◌, refl, inr, none, some, false, if◌then◌else◌, arith}
use ops_intfd.CString.{bytes, str_eq, strncmp_is_zero, strcmp_is_zero}
use ops_intfd.CString.Equality.{strcmp_ne}
use ops_intfd.Smap.{smap_get}
use ops_intfd.Schema.{UserAdmin, InterfaceError, HwConfigKey}
use ops_intfd.Schema.Sample.{sample}
use ops_intfd.Schema.Distinct.{hw_config_key-injective}
use ops_intfd.Database.{Ifrow}
use ops_intfd.Database.Sample.{blank_row}
use ops_intfd.Interface.{Iface}
use ops_intfd.Interface.Sample.{sfp_intf, user_up}
use ops_intfd.Connector.{get_connector_flags}
use ops_intfd.Connector.Kinds.{HasOwnFlags}
use ops_intfd.Config.State.{Heap}
use ops_intfd.Parse.Speeds.{no_speeds, parse_speeds}
use ops_intfd.Config.HwConfig.RoundTrip.{parse_speeds-speed_string}
use ops_intfd.Config.HwConfig.{speed_string, new_hw_config}
use ops_intfd.Config.HwConfig.Keys.{detail, first_entry, get-new_hw_config}
use ops_intfd.Config.Set.{set_interface_config}
use ops_intfd.Config.Set.Priority.{set_interface_config-reasons}
use ops_intfd.Config.Set.History.{expected_entry, set_interface_config-written}
use ops_intfd.Utils.{get_error_str}

abbrev no_heap : Heap
no_heap _ = none

abbrev down_intf : Iface
down_intf = record sfp_intf { user_cfg = record user_up { admin_state = UserAdmin.down } }

own_flags : HasOwnFlags sfp_intf.pm_info
unfolding get_connector_flags
own_flags = refl

get-new_hw_config_example : smap_get (new_hw_config sfp_intf) (bytes "enable") ≡ (
    if sfp_intf.op_state.enabled
    then detail sfp_intf HwConfigKey.enable
    else first_entry false HwConfigKey.enable)
unfolding strcmp_is_zero
get-new_hw_config_example =
    get-new_hw_config sfp_intf HwConfigKey.enable hw_config_key-injective (strcmp_ne _ _ refl)

set_interface_config-reasons_example :
    (result : Ifrow × Iface) × (set_interface_config no_heap blank_row down_intf ≡ some result)
    × (result.1.op_state.enabled ≡ false)
    × (result.1.op_state.reason ≡ InterfaceError.admin_down)
    × (result.0.error ≡ some (get_error_str InterfaceError.admin_down))
unfolding str_eq strncmp_is_zero
set_interface_config-reasons_example =
    set_interface_config-reasons no_heap blank_row down_intf refl (λ h. ground arith) own_flags
      (inr (0, refl))

set_interface_config-written_example :
    (result : Ifrow × Iface) × (set_interface_config no_heap blank_row sfp_intf ≡ some result)
    × (smap_get result.0.hw_intf_config (bytes "speeds")
        ≡ expected_entry sfp_intf HwConfigKey.speeds)
unfolding str_eq strncmp_is_zero
set_interface_config-written_example =
    set_interface_config-written no_heap blank_row sfp_intf HwConfigKey.speeds
      hw_config_key-injective refl (λ h. ground arith) own_flags (inr (0, refl)) refl

parse_speeds-speed_string_example :
    let result = parse_speeds (speed_string 2 (1000 ∷ 10000 ∷ 0 ∷ [])) no_speeds in
    (result.0 ≡ pos 2) × (take 2 result.1 ≡ 1000 ∷ 10000 ∷ [])
parse_speeds-speed_string_example =
    parse_speeds-speed_string 2 (1000 ∷ 10000 ∷ 0 ∷ []) (omega arith) (omega arith)
      (omega arith, (omega arith, tt))
