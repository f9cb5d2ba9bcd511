-- ===== src/Parse/PmInfo.antt =====
-- The parsing of a pluggable module's description in src/intfd_ovsdb_if.c: intfd_parse_pm_info,
-- and intfd_parse_split_pm_info for a lane of a split module.
pub mod Recognised
pub mod Lanes
use ops_intfd.Prelude.{
  ℕ, zero, suc, ◌+◌, ℤ, pos, negsuc, ltbℤ, Bool, true, false, ◌&&◌, ◌||◌, not, Option, none, some,
  List, [], ◌∷◌, ◌>>=◌, ◌==◌, ltb, leb, if◌then◌else◌, set, replicate,
}
use ops_intfd.CString.{CString, bytes, is_str}
use ops_intfd.Smap.{Smap, smap_get}
use ops_intfd.Schema.{Idl, HwConnector, PmConnector, ConnectorStatus, PmInfoKey}
use ops_intfd.Interface.{IntfHwInfo, IntfPmInfo}
use ops_intfd.Connector.{get_connector_flags, get_connector_if_type}

module _ ⦃idl : Idl⦄ where
  open idl use {pm_info_key, connector_name, connector_status_name}

  unfoldable pub parse_connector_status : Option CString → ConnectorStatus
  parse_connector_status str =
      if is_str str (connector_status_name ConnectorStatus.unsupported)
      then ConnectorStatus.unsupported
      else if is_str str (connector_status_name ConnectorStatus.supported)
      then ConnectorStatus.supported
      else ConnectorStatus.unrecognized

  -- The two fields that both parsers of pm_info derive from the connector at their end.
  abbrev pub pm_info_of : PmConnector → ConnectorStatus → IntfPmInfo
  pm_info_of connector connector_status = record {
    op_connector_flags = get_connector_flags connector;
    connector = connector;
    connector_status = connector_status;
    intf_type = get_connector_if_type connector;
  }

  -- The connector of a lane of a split module; `none` where the code goes to its last `else`.
  unfoldable pub split_connector : Option CString → Option CString → Option PmConnector
  split_connector str sup_speed =
      if is_str str (connector_name PmConnector.qsfp28_cwdm4)
      then some PmConnector.sfp28_lr
      else if is_str str (connector_name PmConnector.qsfp28_psm4)
      then some PmConnector.sfp28_lr
      else if is_str str (connector_name PmConnector.qsfp28_clr4)
      then some PmConnector.sfp28_lr
      else if is_str str (connector_name PmConnector.qsfp28_cr4)
      then (if is_str sup_speed (bytes "40000")
          then some PmConnector.sfp_dac
          else some PmConnector.sfp28_cr)
      else if is_str str (connector_name PmConnector.qsfp28_lr4)
      then some PmConnector.sfp28_lr
      else if is_str str (connector_name PmConnector.qsfp28_sr4)
      then some PmConnector.sfp28_sr
      else if is_str str (connector_name PmConnector.qsfp_cr4)
      then some PmConnector.sfp_dac
      else if is_str str (connector_name PmConnector.qsfp_lr4)
      then some PmConnector.sfp_lr
      else if is_str str (connector_name PmConnector.qsfp_sr4)
      then some PmConnector.sfp_sr
      else if is_str str (connector_name PmConnector.absent)
      then some PmConnector.absent
      else none

  unfoldable pub parse_split_pm_info : Smap → IntfPmInfo
  parse_split_pm_info pm_info =
      let found =
        split_connector (smap_get pm_info (pm_info_key PmInfoKey.connector))
          (smap_get pm_info (bytes "supported_speeds")) in
      let status =
        parse_connector_status (smap_get pm_info (pm_info_key PmInfoKey.connector_status)) in
      elim found [
        | none ↦ pm_info_of PmConnector.unknown ConnectorStatus.unsupported
        | some connector ↦ pm_info_of connector status
      ]

  unfoldable pub parse_connector : Option CString → PmConnector
  parse_connector str =
      if is_str str (connector_name PmConnector.qsfp28_cwdm4)
      then PmConnector.qsfp28_cwdm4
      else if is_str str (connector_name PmConnector.qsfp28_psm4)
      then PmConnector.qsfp28_psm4
      else if is_str str (connector_name PmConnector.qsfp28_clr4)
      then PmConnector.qsfp28_clr4
      else if is_str str (connector_name PmConnector.qsfp28_cr4)
      then PmConnector.qsfp28_cr4
      else if is_str str (connector_name PmConnector.qsfp28_lr4)
      then PmConnector.qsfp28_lr4
      else if is_str str (connector_name PmConnector.qsfp28_sr4)
      then PmConnector.qsfp28_sr4
      else if is_str str (connector_name PmConnector.sfp28_cr)
      then PmConnector.sfp28_cr
      else if is_str str (connector_name PmConnector.sfp28_lr)
      then PmConnector.sfp28_lr
      else if is_str str (connector_name PmConnector.sfp28_sr)
      then PmConnector.sfp28_sr
      else if is_str str (connector_name PmConnector.qsfp_cr4)
      then PmConnector.qsfp_cr4
      else if is_str str (connector_name PmConnector.qsfp_lr4)
      then PmConnector.qsfp_lr4
      else if is_str str (connector_name PmConnector.qsfp_sr4)
      then PmConnector.qsfp_sr4
      else if is_str str (connector_name PmConnector.sfp_cx)
      then PmConnector.sfp_cx
      else if is_str str (connector_name PmConnector.sfp_dac)
      then PmConnector.sfp_dac
      else if is_str str (connector_name PmConnector.sfp_fc)
      then PmConnector.sfp_fc
      else if is_str str (connector_name PmConnector.sfp_lr)
      then PmConnector.sfp_lr
      else if is_str str (connector_name PmConnector.sfp_lrm)
      then PmConnector.sfp_lrm
      else if is_str str (connector_name PmConnector.sfp_er)
      then PmConnector.sfp_er
      else if is_str str (connector_name PmConnector.sfp_lx)
      then PmConnector.sfp_lx
      else if is_str str (connector_name PmConnector.sfp_rj45)
      then PmConnector.sfp_rj45
      else if is_str str (connector_name PmConnector.sfp_sr)
      then PmConnector.sfp_sr
      else if is_str str (connector_name PmConnector.sfp_sx)
      then PmConnector.sfp_sx
      else if is_str str (connector_name PmConnector.absent)
      then PmConnector.absent
      else PmConnector.unknown

  unfoldable pub parse_pm_info : IntfHwInfo → Smap → IntfPmInfo
  parse_pm_info hw_info pm_info =
      if not hw_info.is_pluggable
      then elim hw_info.connector [
        | HwConnector.rj45 ↦ pm_info_of PmConnector.sfp_rj45 ConnectorStatus.supported
        | _ ↦ pm_info_of PmConnector.unknown ConnectorStatus.unrecognized
      ]
      else pm_info_of (parse_connector (smap_get pm_info (pm_info_key PmInfoKey.connector)))
          (parse_connector_status (smap_get pm_info (pm_info_key PmInfoKey.connector_status)))
