-- ===== src/Show.antt =====
-- show running-config of src/cli/intf_vty.c, src/cli/vtysh_ovsdb_intf_context.c and src/cli/qos_intf.c: what
-- the functions share. A line that a function prints is a constructor of `Line` with its arguments,
-- without the spaces and the end of the line.
pub mod Qos
pub mod Layer3
pub mod Ospf
pub mod Lag
pub mod Context
pub mod Management
pub mod Running
pub mod Extends
pub mod Replay
mod Tests
use ops_intfd.Prelude.{
  ℕ, zero, suc, ℤ, Bool, true, false, not, Option, none, some, List, [], ◌∷◌, ◌++◌, if◌then◌else◌,
}
use ops_intfd.CString.{CString, strcmp_is_zero}
use ops_intfd.Smap.{Smap, smap_get}
use ops_intfd.Schema.{Idl}
use ops_intfd.Database.{Ifrow}
use ops_intfd.Cli.OnlyKey.{Command}

pub data Line : Type 0 where
  -- interface %s, interface loopback %s, interface lag %s, exit
  interface_name interface_loopback interface_lag : CString → Line
  exit : Line
  -- the commands that edit user_config
  no_shutdown split : Line
  setting : Command → Line
  encapsulation_dot1q : ℤ → Line
  no_sflow_enable no_routing : Line
  qos_trust qos_cos qos_dscp apply_qos_schedule_profile : CString → Line
  vlan_access vlan_trunk_allowed vlan_trunk_native : ℤ → Line
  vlan_trunk_native_tag : Line
  vrf_attach ip_address ip_address_secondary ipv6_address ipv6_address_secondary : CString → Line
  ip_proxy_arp ip_local_proxy_arp : Line
  lag lacp_port_id lacp_port_priority : CString → Line
  lacp_mode hash lacp_fallback_timeout lacp_rate : CString → Line
  lacp_fallback lacp_fallback_mode_all_active : Line
  ip_helper_address ip_bootp_gateway : CString → Line
  ip_forward_protocol_udp : CString → ℤ → Line
  ospf_hello_interval ospf_dead_interval ospf_retransmit_interval ospf_transmit_delay : ℤ → Line
  ospf_priority ospf_cost : ℤ → Line
  ospf_mtu_ignore ospf_network_point_to_point : Line
  ospf_authentication ospf_authentication_message_digest ospf_authentication_null : Line
  ospf_message_digest_key : ℤ → CString → Line
  ospf_authentication_key : CString → Line

-- The columns of a row of the Port table that concern OSPF.
pub record OspfColumns : Type 0 where
  pub intervals : List (CString × ℤ)
  pub priority : Option ℤ
  pub mtu_ignore : List Bool
  pub if_out_cost : Option ℤ
  pub if_type : Option CString
  pub auth_type : Option CString
  pub auth_md5_keys : List (ℤ × CString)
  pub auth_text_key : Option CString

-- The columns of a row of the Port table that are shown: `interfaces` are the names of the
-- interfaces, `q_profile` the name of the queue profile, if there is one, and `qos` that of the
-- schedule profile, which may be null.
pub record Port : Type 0 where
  pub name : CString
  pub admin : Option CString
  pub lacp : Option CString
  pub interfaces : List CString
  pub other_config : Smap
  pub qos_config : Smap
  pub q_profile : Option CString
  pub qos : Option (Option CString)
  pub qos_status : Smap
  pub vlan_mode : Option CString
  pub has_vlan_tag : Bool
  pub ip4_address : Option CString
  pub ip4_address_secondary : List CString
  pub ip6_address : Option CString
  pub ip6_address_secondary : List CString
  pub ospf : OspfColumns

-- A row of DHCP_Relay and of UDP_Bcast_Forwarder_Server, with the name of its port; a port that is
-- null is `none`. Every row of the latter has a number of a UDP port.
pub record Relay : Type 0 where
  pub port : Option CString
  pub ipv4_ucast_server : List CString
  pub other_config : Smap

pub record Forwarder : Type 0 where
  pub src_port : Option CString
  pub ipv4_ucast_server : List CString
  pub udp_dport : ℤ

-- A row of OSPF_Interface.
pub record OspfInterface : Type 0 where
  pub name : CString
  pub port : Option Port

-- The other tables of the database.
pub record Tables : Type 0 where
  pub ports : List Port
  pub relays : List Relay
  pub forwarders : List Forwarder
  pub ospf_interfaces : List OspfInterface

-- A row of the Interface table with what is reached from it: `parent` is the row that split_parent
-- points to, `subintf_vlan` the first key of subintf_parent.
pub record ShowRow : Type 0 where
  pub row : Ifrow
  pub parent : Option Ifrow
  pub subintf_vlan : Option ℤ
  pub other_config : Smap

-- What the functions use of other repositories: the strings of generated headers, and the look-ups
-- of the shell's utilities. port_find and port_lookup find a port by its name.
pub record Host : Type 0 where
  pub sflow_key : CString
  pub sflow_false : CString
  pub default_bridge_name : CString
  pub default_vrf_name : CString
  pub vlan_mode_access : CString
  pub vlan_mode_trunk : CString
  pub vlan_mode_native_untagged : CString
  pub vlan_mode_native_tagged : CString
  pub proxy_arp_key : CString
  pub local_proxy_arp_key : CString
  pub lacp_port_id_key : CString
  pub lacp_port_priority_key : CString
  pub lacp_fallback_mode_key : CString
  pub lacp_fallback_all_active : CString
  pub lacp_fallback_timeout_key : CString
  pub lacp_off : CString
  pub port_admin_up : CString
  pub bootp_gateway_key : CString
  pub lag_prefix : CString
  pub max_ifname_length : ℕ
  pub ospf_hello_key : CString
  pub ospf_dead_key : CString
  pub ospf_retransmit_key : CString
  pub ospf_transmit_delay_key : CString
  pub ospf_hello_default : ℤ
  pub ospf_dead_default : ℤ
  pub ospf_retransmit_default : ℤ
  pub ospf_transmit_delay_default : ℤ
  pub ospf_cost_default : ℤ
  pub ospf_point_to_point : CString
  pub ospf_auth_text : CString
  pub ospf_auth_md5 : CString
  pub ospf_auth_null : CString
  pub port_find : Tables → CString → Option Port
  pub port_lookup : Tables → CString → Option Port
  pub check_iface_in_vrf : Tables → CString → Bool
  pub check_port_in_bridge : Tables → CString → Bool
  -- the name of the row that is found
  pub port_match_in_vrf : Tables → Port → CString
  pub display_l3_info : Port → CString → Bool
  pub port_get_tag : Port → ℤ
  pub port_get_trunks : Port → List ℤ

-- Whether the header of the interface has been printed, and the lines so far.
pub record Out : Type 0 where
  pub printed : Bool
  pub lines : List Line

abbrev pub blank_out : Out
blank_out = record { printed = false; lines = [] }

-- vty_out, and vtysh_ovsdb_cli_print
abbrev pub emit : Line → Out → Out
emit line out = record out { lines = out.lines ++ line ∷ [] }

-- PRINT_INT_HEADER_IN_SHOW_RUN, and the like
unfoldable pub print_header : CString → Out → Out
print_header name out =
    if out.printed
    then out
    else record { printed = true; lines = out.lines ++ interface_name name ∷ [] }

-- The header, if it is not there yet, and a line.
abbrev pub say : CString → Line → Out → Out
say name line out = emit line (print_header name out)

-- A line that depends on a test, or shows a value.
unfoldable pub emit_if : Bool → Line → Out → Out
emit_if test line out = if test then emit line out else out

unfoldable pub emit_some : Option CString → (CString → Line) → Out → Out
emit_some none line out = out
emit_some (some value) line out = emit (line value) out

unfoldable pub emit_each {ℓ} : {A : Type ℓ} → (A → Line) → List A → Out → Out
emit_each line [] out = out
emit_each line (value ∷ values) out = emit_each line values (emit (line value) out)

-- NULL != value, and strcmp(value, s) == 0 or != 0
abbrev pub holds : Option CString → CString → Bool
holds none s = false
holds (some value) s = strcmp_is_zero value s

abbrev pub holds_other : Option CString → CString → Bool
holds_other none s = false
holds_other (some value) s = not (strcmp_is_zero value s)

module _ ⦃idl : Idl⦄ ⦃host : Host⦄ where
  open host use {sflow_key, sflow_false, port_find}

  -- show_sflow_config(name, align, false)
  unfoldable pub show_sflow_config : Tables → CString → Out → Out
  unfolding emit_if
  show_sflow_config tables name out = elim (port_find tables name) [
    | none ↦ out
    | some port ↦
        emit_if (holds (smap_get port.other_config sflow_key) sflow_false) no_sflow_enable out
  ]
