-- ===== src/Show/Qos.antt =====
-- src/cli/qos_intf.c: the quality of service of a port in show running-config. Show/Qos/Display is what
-- show interface prints of it.
pub mod Display
use ops_intfd.Prelude.{
  Bool, true, false, ◌&&◌, ◌||◌, not, Option, none, some, List, [], ◌∷◌, if◌then◌else◌,
}
use ops_intfd.CString.{CString, bytes, strcmp_is_zero}
use ops_intfd.Smap.{smap_get}
use ops_intfd.Schema.{Idl}
use ops_intfd.Show.{
  Line, qos_trust, qos_cos, qos_dscp, apply_qos_schedule_profile, Port, Tables, Out, say,
  print_header,
}

-- The loop over the interfaces of a port.
unfoldable pub has_member : CString → List CString → Bool
has_member name [] = false
has_member name (interface ∷ interfaces) =
    strcmp_is_zero interface name || has_member name interfaces

unfoldable pub get_owning_lag : List Port → CString → Option Port
unfolding has_member
get_owning_lag [] name = none
get_owning_lag (port ∷ ports) name =
    if has_member name port.interfaces && not (strcmp_is_zero port.name name)
    then some port
    else get_owning_lag ports name

unfoldable pub is_member_of_lag : List Port → CString → Bool
is_member_of_lag ports name = elim (get_owning_lag ports name) [ none ↦ false | some port ↦ true ]

-- What is shown of a value of a port that is no member of a lag.
unfoldable pub show_port_value :
    List Port → (Port → Option CString) → (CString → Line) → Option Port → Out → Out
unfolding is_member_of_lag print_header
show_port_value ports value line none out = out
show_port_value ports value line (some port) out =
    if is_member_of_lag ports port.name
    then out
    else elim (value port) [ none ↦ out | some v ↦ say port.name (line v) out ]

abbrev pub qos_trust_key : CString
qos_trust_key = bytes "qos_trust"

abbrev pub qos_cos_override_key : CString
qos_cos_override_key = bytes "cos_override"

abbrev pub qos_dscp_override_key : CString
qos_dscp_override_key = bytes "dscp_override"

module _ ⦃idl : Idl⦄ where
  unfoldable pub qos_trust_port_show_running_config : Tables → Option Port → Out → Out
  unfolding show_port_value
  qos_trust_port_show_running_config tables =
      show_port_value tables.ports (λ port. smap_get port.qos_config qos_trust_key) qos_trust

  unfoldable pub qos_cos_port_show_running_config : Tables → Option Port → Out → Out
  unfolding show_port_value
  qos_cos_port_show_running_config tables =
      show_port_value tables.ports (λ port. smap_get port.qos_config qos_cos_override_key) qos_cos

  abbrev profile_of : Option (Option CString) → Option CString
  profile_of none = none
  profile_of (some name) = name

  unfoldable pub qos_apply_port_show_running_config : Tables → Option Port → Out → Out
  unfolding show_port_value
  qos_apply_port_show_running_config tables =
      show_port_value tables.ports (λ port. profile_of port.qos) apply_qos_schedule_profile

  unfoldable pub qos_dscp_port_show_running_config : Tables → Option Port → Out → Out
  unfolding show_port_value
  qos_dscp_port_show_running_config tables =
      show_port_value tables.ports (λ port. smap_get port.qos_config qos_dscp_override_key) qos_dscp

  -- The four calls in the order of the callers.
  abbrev pub qos_port_show_running_config : Tables → Option Port → Out → Out
  qos_port_show_running_config tables port out = qos_dscp_port_show_running_config tables port (
      qos_cos_port_show_running_config tables port (
        qos_apply_port_show_running_config tables port
          (qos_trust_port_show_running_config tables port out)))
