-- ===== src/Parse/PmInfo/Lanes.antt =====
-- A lane of a split module, and the consistency of what the two parsers of pm_info return.
use ops_intfd.Prelude.{ℕ, ◌*◌, ◌≡◌, refl, Bool, true, false, Option, some, arith, if◌then◌else◌}
use ops_intfd.CString.{CString, bytes, is_str}
use ops_intfd.CString.Equality.{str_eq-name}
use ops_intfd.Smap.{Smap, smap_get}
use ops_intfd.Schema.{Idl, PmConnector, PmInfoKey}
use ops_intfd.Interface.{IntfHwInfo}
use ops_intfd.Connector.{
  has_flag, pm_qsfp_type_flag, get_connector_flags, connector_is_sfp, connector_is_sfp_plus_10g,
  connector_is_sfp28_25g, connector_is_qsfp_plus_40g, connector_is_qsfp28_100g,
}
use ops_intfd.Connector.Kinds.{HasOwnFlags, native_speed}
use ops_intfd.Parse.PmInfo.{
  split_connector, parse_connector_status, parse_split_pm_info, parse_pm_info, pm_info_of,
}
use ops_intfd.Parse.PmInfo.Recognised.{NamesInjective, PmConnector-discrete}

-- A module with four lanes.
abbrev pub is_quad : PmConnector → Bool
is_quad c = has_flag (get_connector_flags c) pm_qsfp_type_flag

-- The connector of one lane, if the copper module is told to run its four lanes at 40 Gb/s.
abbrev pub lane_of : Bool → PmConnector → PmConnector
lane_of at_40g PmConnector.qsfp28_cwdm4 = PmConnector.sfp28_lr
lane_of at_40g PmConnector.qsfp28_psm4 = PmConnector.sfp28_lr
lane_of at_40g PmConnector.qsfp28_clr4 = PmConnector.sfp28_lr
lane_of at_40g PmConnector.qsfp28_cr4 = if at_40g then PmConnector.sfp_dac else PmConnector.sfp28_cr
lane_of at_40g PmConnector.qsfp28_lr4 = PmConnector.sfp28_lr
lane_of at_40g PmConnector.qsfp28_sr4 = PmConnector.sfp28_sr
lane_of at_40g PmConnector.qsfp_cr4 = PmConnector.sfp_dac
lane_of at_40g PmConnector.qsfp_lr4 = PmConnector.sfp_lr
lane_of at_40g PmConnector.qsfp_sr4 = PmConnector.sfp_sr
lane_of at_40g PmConnector.absent = PmConnector.absent
lane_of at_40g _ = PmConnector.unknown

-- The speed at which the whole module runs.
abbrev pub module_speed : Bool → PmConnector → ℕ
module_speed at_40g PmConnector.qsfp28_cr4 = if at_40g then 40000 else 100000
module_speed at_40g c = native_speed c

lane-speed :
    (at_40g : Bool) (c : PmConnector)
    → is_quad c ≡ true
    → 4 * native_speed (lane_of at_40g c) ≡ module_speed at_40g c
unfolding get_connector_flags connector_is_sfp connector_is_sfp_plus_10g connector_is_sfp28_25g
    connector_is_qsfp_plus_40g connector_is_qsfp28_100g
lane-speed true PmConnector.qsfp28_cr4 q = refl
lane-speed false PmConnector.qsfp28_cr4 q = refl
lane-speed at_40g PmConnector.qsfp28_clr4 q = refl
lane-speed at_40g PmConnector.qsfp28_psm4 q = refl
lane-speed at_40g PmConnector.qsfp28_cwdm4 q = refl
lane-speed at_40g PmConnector.qsfp28_lr4 q = refl
lane-speed at_40g PmConnector.qsfp28_sr4 q = refl
lane-speed at_40g PmConnector.qsfp_cr4 q = refl
lane-speed at_40g PmConnector.qsfp_lr4 q = refl
lane-speed at_40g PmConnector.qsfp_sr4 q = refl
lane-speed at_40g _ q = cc

module _ ⦃idl : Idl⦄ where
  open idl use {pm_info_key, connector_name}

  split_connector-name :
      (c : PmConnector) (sup_speed : Option CString)
      → NamesInjective
      → is_quad c ≡ true
      → split_connector (some (connector_name c)) sup_speed
        ≡ some (lane_of (is_str sup_speed (bytes "40000")) c)
  unfolding split_connector is_str PmConnector-discrete get_connector_flags
  split_connector-name PmConnector.qsfp28_cr4 sup inj q =
      simp (str_eq-name PmConnector-discrete connector_name inj) (ground arith)
  split_connector-name PmConnector.qsfp28_clr4 sup inj q =
      simp (str_eq-name PmConnector-discrete connector_name inj)
  split_connector-name PmConnector.qsfp28_psm4 sup inj q =
      simp (str_eq-name PmConnector-discrete connector_name inj)
  split_connector-name PmConnector.qsfp28_cwdm4 sup inj q =
      simp (str_eq-name PmConnector-discrete connector_name inj)
  split_connector-name PmConnector.qsfp28_lr4 sup inj q =
      simp (str_eq-name PmConnector-discrete connector_name inj)
  split_connector-name PmConnector.qsfp28_sr4 sup inj q =
      simp (str_eq-name PmConnector-discrete connector_name inj)
  split_connector-name PmConnector.qsfp_cr4 sup inj q =
      simp (str_eq-name PmConnector-discrete connector_name inj)
  split_connector-name PmConnector.qsfp_lr4 sup inj q =
      simp (str_eq-name PmConnector-discrete connector_name inj)
  split_connector-name PmConnector.qsfp_sr4 sup inj q =
      simp (str_eq-name PmConnector-discrete connector_name inj)
  split_connector-name _ sup inj q = cc

  -- Whether the row of a module says that its lanes run at 40 Gb/s together.
  abbrev pub is_40g : Smap → Bool
  is_40g m = is_str (smap_get m (bytes "supported_speeds")) (bytes "40000")

  parse_split-eq :
      (m : Smap) (c : PmConnector)
      → NamesInjective
      → is_quad c ≡ true
      → smap_get m (pm_info_key PmInfoKey.connector) ≡ some (connector_name c)
      → parse_split_pm_info m
        ≡ pm_info_of
            (lane_of (is_40g m) c)
            (parse_connector_status (smap_get m (pm_info_key PmInfoKey.connector_status)))
  unfolding parse_split_pm_info
  parse_split-eq m c inj q h =
      rw
        (
          h,
          split_connector-name c (smap_get m (bytes "supported_speeds")) inj q,
          parse_split_pm_info,
        )
        refl

  -- Where the names of connectors differ: the connector that a lane of a four-lane module gets from
  -- the row of its parent comes with its own flags and interface type and
  -- the status of the row, and four lanes have the speed of the module.
  pub parse_split_pm_info-quad :
      (m : Smap) (c : PmConnector)
      → NamesInjective
      → is_quad c ≡ true
      → smap_get m (pm_info_key PmInfoKey.connector) ≡ some (connector_name c)
      → (4 * native_speed (parse_split_pm_info m).connector ≡ module_speed (is_40g m) c)
        × (parse_split_pm_info m
            ≡ pm_info_of
                (parse_split_pm_info m).connector
                (parse_connector_status (smap_get m (pm_info_key PmInfoKey.connector_status))))
  parse_split_pm_info-quad m c inj q h =
      rw (parse_split-eq m c inj q h) (lane-speed (is_40g m) c q, refl)

  -- Both parsers give a module the flags of its connector.
  pub parse_pm_info-HasOwnFlags : (hw : IntfHwInfo) (m : Smap) → HasOwnFlags (parse_pm_info hw m)
  unfolding parse_pm_info
  parse_pm_info-HasOwnFlags hw m = ground arith

  pub parse_split_pm_info-HasOwnFlags : (m : Smap) → HasOwnFlags (parse_split_pm_info m)
  unfolding parse_split_pm_info
  parse_split_pm_info-HasOwnFlags m = ground arith
