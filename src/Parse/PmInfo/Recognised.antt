-- ===== src/Parse/PmInfo/Recognised.antt =====
-- Every connector is recognised by its name.
use ops_intfd.Prelude.{◌≡◌, refl, true, some}
use ops_intfd.CString.{is_str}
use ops_intfd.CString.Equality.{str_eq-name}
use ops_intfd.Smap.{Smap, smap_get}
use ops_intfd.Schema.{Idl, PmConnector, PmInfoKey}
use ops_intfd.Interface.{IntfHwInfo}
use ops_intfd.Parse.PmInfo.{parse_connector, parse_connector_status, parse_pm_info, pm_info_of}

unfoldable pub PmConnector-discrete : Discrete PmConnector
PmConnector-discrete = hlevel

module _ ⦃idl : Idl⦄ where
  open idl use {pm_info_key, connector_name}

  abbrev pub NamesInjective : Type 0
  NamesInjective = (a b : PmConnector) → connector_name a ≡ connector_name b → a ≡ b

  parse_connector-name :
      (c : PmConnector) → NamesInjective → parse_connector (some (connector_name c)) ≡ c
  unfolding parse_connector is_str PmConnector-discrete
  parse_connector-name PmConnector.absent inj =
      simp (str_eq-name PmConnector-discrete connector_name inj)
  parse_connector-name _ inj = simp (str_eq-name PmConnector-discrete connector_name inj)

  -- Where the names of connectors differ: of a pluggable module whose row names a connector, the
  -- daemon keeps that connector, its flags and its interface type, with the status of the row.
  pub parse_pm_info-name :
      (hw : IntfHwInfo) (m : Smap) (c : PmConnector)
      → NamesInjective
      → hw.is_pluggable ≡ true
      → smap_get m (pm_info_key PmInfoKey.connector) ≡ some (connector_name c)
      → parse_pm_info hw m
        ≡ pm_info_of c
            (parse_connector_status (smap_get m (pm_info_key PmInfoKey.connector_status)))
  unfolding parse_pm_info
  parse_pm_info-name hw m c inj p h = rw (p, h, parse_connector-name c inj) refl
