-- ===== src/Parse/Tests.antt =====
-- The parsers of src/intfd_ovsdb_if.c on rows like those of the tests under ops-tests/.
use ops_intfd.Prelude.{◌++◌, ◌≡◌, refl, ◌⊎◌, ◌↔◌, ◌≤◌, ◌*◌, ℕ, pos, List, [], ◌∷◌, true, none, some}
use ops_intfd.CString.{
  bytes, is_str, str_eq, strncmp_is_zero, strcmp_is_zero, is_a_number, atoi, atoi_bits, int_of_bits,
  scan_digits, strtok, strtok_from,
}
use ops_intfd.StringMap.Assoc.{assoc_get}
use ops_intfd.Smap.{Smap, smap_get}
use ops_intfd.Schema.{PmConnector, UserPause}
use ops_intfd.Connector.{get_connector_flags}
use ops_intfd.Schema.Sample.{sample}
use ops_intfd.Schema.Distinct.{connector_name-injective}
use ops_intfd.Database.Sample.{entry}
use ops_intfd.Interface.{IntfUserCfg, minus_one}
use ops_intfd.Interface.Sample.{user_up}
use ops_intfd.Connector.Kinds.{native_speed}
use ops_intfd.Parse.Speeds.{
  no_speeds, parse_tokens, parse_speeds, parse_user_speeds, parse_user_mtu, check_supported,
}
use ops_intfd.Parse.Speeds.Bounds.{IsSpeedCount, parse_speeds-bounds}
use ops_intfd.Parse.Speeds.Supported.{AllOccur, check_supported_iff}
use ops_intfd.Parse.UserCfg.{
  parse_user_cfg, parse_admin, parse_autoneg, parse_pause, parse_duplex, parse_lane_split,
}
use ops_intfd.Parse.UserCfg.Columns.{
  IsParsed, names_speeds, parse_user_cfg-IsParsed, parse_user_cfg-fault,
}
use ops_intfd.Parse.PmInfo.{parse_split_pm_info, parse_connector_status, pm_info_of}
use ops_intfd.Parse.PmInfo.Lanes.{is_40g, module_speed, parse_split_pm_info-quad}

parse_speeds_test :
    parse_speeds (bytes "1000,,10000") no_speeds
    ≡ (pos 2, 1000 ∷ 10000 ∷ 0 ∷ 0 ∷ 0 ∷ 0 ∷ 0 ∷ 0 ∷ 0 ∷ 0 ∷ [])
unfolding parse_speeds parse_tokens strtok strtok_from is_a_number atoi_bits scan_digits
parse_speeds_test = refl

parse_speeds-bounds_example :
    let parsed = parse_speeds (bytes "1,2,x") no_speeds in
    IsSpeedCount parsed.0
    × (parse_speeds (bytes "1,2,x") (no_speeds ++ 7 ∷ []) ≡ (parsed.0, parsed.1 ++ 7 ∷ []))
parse_speeds-bounds_example = parse_speeds-bounds (bytes "1,2,x") no_speeds (7 ∷ []) refl

abbrev two_speeds : List ℕ
two_speeds = 1000 ∷ 10000 ∷ []

check_supported_iff_example :
    ((check_supported (pos 1) (1000 ∷ []) (pos 2, two_speeds) ≡ pos 1)
      ↔ ((1 ≤ 2) × AllOccur (1000 ∷ []) two_speeds))
    × ((check_supported (pos 1) (1000 ∷ []) (pos 2, two_speeds) ≡ pos 1)
        ⊎ (check_supported (pos 1) (1000 ∷ []) (pos 2, two_speeds) ≡ minus_one))
check_supported_iff_example = check_supported_iff 1 2 (1000 ∷ []) two_speeds

abbrev user_config : Smap
user_config = (bytes "admin", bytes "up") ∷ (bytes "mtu", bytes "9000") ∷ []

-- The configuration that the row above is parsed to.
abbrev parsed_up : IntfUserCfg
parsed_up = record user_up { pause = UserPause.no_pause; mtu = pos 9000 }

parse_user_cfg_test : parse_user_cfg (pos 9216) user_up user_config [] ≡ some parsed_up
unfolding parse_user_cfg parse_user_speeds parse_user_mtu parse_admin parse_autoneg parse_pause
    parse_duplex parse_lane_split assoc_get strcmp_is_zero is_str str_eq strncmp_is_zero is_a_number
    atoi atoi_bits int_of_bits scan_digits
parse_user_cfg_test = refl

parse_user_cfg-IsParsed_example : IsParsed (pos 9216) parsed_up
parse_user_cfg-IsParsed_example =
    parse_user_cfg-IsParsed (pos 9216) user_up user_config [] parsed_up parse_user_cfg_test

parse_user_cfg-fault_example :
    (parse_user_cfg (pos 9216) user_up (entry (bytes "speeds") (bytes "1000")) [] ≡ none) ↔ (
      (names_speeds (smap_get (entry (bytes "speeds") (bytes "1000")) (bytes "speeds")) ≡ true)
      × (smap_get [] (bytes "speeds") ≡ none))
parse_user_cfg-fault_example =
    parse_user_cfg-fault (pos 9216) user_up (entry (bytes "speeds") (bytes "1000")) []

abbrev sr_row : Smap
sr_row = entry (bytes "connector") (bytes "SFP_SR")

abbrev quad_row : Smap
quad_row = (bytes "connector", bytes "QSFP_SR4") ∷ (bytes "supported_speeds", bytes "40000") ∷ []

parse_split_pm_info-quad_example :
    (4 * native_speed (parse_split_pm_info quad_row).connector
      ≡ module_speed (is_40g quad_row) PmConnector.qsfp_sr4)
    × (parse_split_pm_info quad_row
        ≡ pm_info_of
            (parse_split_pm_info quad_row).connector
            (parse_connector_status (smap_get quad_row (bytes "connector_status"))))
unfolding assoc_get strcmp_is_zero get_connector_flags
parse_split_pm_info-quad_example =
    parse_split_pm_info-quad quad_row PmConnector.qsfp_sr4 connector_name-injective refl refl
