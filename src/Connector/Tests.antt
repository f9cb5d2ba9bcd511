-- ===== src/Connector/Tests.antt =====
-- Two connectors of src/intfd_ovsdb_if.c: a 10 Gb/s module and SFP_LRM.
use ops_intfd.Prelude.{◌≡◌, ◌⊎◌}
use ops_intfd.Schema.{PmConnector, InterfaceType}
use ops_intfd.Connector.{get_connector_flags, get_connector_if_type}
use ops_intfd.Connector.Kinds.{flags_speed, type_speed, flags-if_type_agree}

flags-if_type_agree_example :
    (flags_speed (get_connector_flags PmConnector.sfp_lrm)
      ≡ type_speed (get_connector_if_type PmConnector.sfp_lrm))
    ⊎ ((PmConnector.sfp_lrm ≡ PmConnector.sfp_lrm)
        × (flags_speed (get_connector_flags PmConnector.sfp_lrm) ≡ 10000)
        × (get_connector_if_type PmConnector.sfp_lrm ≡ InterfaceType.unknown))
flags-if_type_agree_example = flags-if_type_agree PmConnector.sfp_lrm
