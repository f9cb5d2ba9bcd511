-- ===== src/Show/Layer3.antt =====
-- parse_vlan and parse_l3config of src/cli/intf_vty.c.
use ops_intfd.Prelude.{Bool, true, false, Option, none, some, if◌then◌else◌}
use ops_intfd.CString.{CString, strcmp_is_zero}
use ops_intfd.Smap.{smap_get}
use ops_intfd.Schema.{Idl}
use ops_intfd.Show.{
  no_routing, vlan_access, vlan_trunk_allowed, vlan_trunk_native, vlan_trunk_native_tag, vrf_attach,
  ip_address, ip_address_secondary, ipv6_address, ipv6_address_secondary, ip_proxy_arp,
  ip_local_proxy_arp, Port, Tables, Host, Out, emit, emit_if, emit_some, emit_each,
}

-- A value that is not NULL.
abbrev pub is_there {ℓ} : {A : Type ℓ} → Option A → Bool
is_there none = false
is_there (some a) = true

module _ ⦃host : Host⦄ where
  open host use {
    vlan_mode_access, vlan_mode_trunk, vlan_mode_native_untagged, vlan_mode_native_tagged,
    port_find, port_get_tag, port_get_trunks,
  }

  abbrev show_trunks : Port → Out → Out
  show_trunks port = emit_each vlan_trunk_allowed (port_get_trunks port)

  abbrev show_native : Port → Out → Out
  show_native port = emit_if port.has_vlan_tag (vlan_trunk_native (port_get_tag port))

  unfoldable pub show_vlan_mode : Port → CString → Out → Out
  unfolding emit_if emit_each
  show_vlan_mode port mode out =
      if strcmp_is_zero mode vlan_mode_access
      then emit (vlan_access (port_get_tag port)) out
      else if strcmp_is_zero mode vlan_mode_trunk
      then show_trunks port out
      else if strcmp_is_zero mode vlan_mode_native_untagged
      then show_trunks port (show_native port out)
      else if strcmp_is_zero mode vlan_mode_native_tagged
      then show_trunks port (emit vlan_trunk_native_tag (show_native port out))
      else out

  unfoldable pub parse_vlan : Tables → CString → Out → Out
  unfolding show_vlan_mode
  parse_vlan tables name out = elim (port_find tables name) [
    | none ↦ out
    | some port ↦ elim port.vlan_mode [ none ↦ out | some mode ↦ show_vlan_mode port mode out ]
  ]

module _ ⦃idl : Idl⦄ ⦃host : Host⦄ where
  open host use {
    default_vrf_name, proxy_arp_key, local_proxy_arp_key, port_find, check_iface_in_vrf,
    port_match_in_vrf, display_l3_info,
  }

  unfoldable pub show_addresses : Port → CString → Out → Out
  unfolding emit_if emit_some emit_each
  show_addresses port vrf out =
      let out1 = if strcmp_is_zero vrf default_vrf_name then out else emit (vrf_attach vrf) out in
      let out2 = emit_some port.ip4_address ip_address out1 in
      let out3 = emit_each ip_address_secondary port.ip4_address_secondary out2 in
      let out4 = emit_some port.ip6_address ipv6_address out3 in
      let out5 = emit_each ipv6_address_secondary port.ip6_address_secondary out4 in
      let out6 = emit_if (is_there (smap_get port.other_config proxy_arp_key)) ip_proxy_arp out5 in
      emit_if (is_there (smap_get port.other_config local_proxy_arp_key)) ip_local_proxy_arp out6

  unfoldable pub parse_l3config : Tables → CString → Out → Out
  unfolding parse_vlan show_addresses
  parse_l3config tables name out = elim (port_find tables name) [
    | none ↦ out
    | some port ↦
        if check_iface_in_vrf tables name
        then (if display_l3_info port (port_match_in_vrf tables port)
            then show_addresses port (port_match_in_vrf tables port) out
            else out)
        else parse_vlan tables name (emit no_routing out)
  ]
