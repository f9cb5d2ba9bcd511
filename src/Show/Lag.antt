-- ===== src/Show/Lag.antt =====
-- print_interface_lag, parse_lacp_othercfg and parse_lag of src/cli/intf_vty.c.
use ops_intfd.Prelude.{
  ℕ, zero, suc, Bool, true, false, Option, none, some, List, [], ◌∷◌, length, if◌then◌else◌,
}
use ops_intfd.CString.{CString, bytes, strncmp_is_zero, is_str}
use ops_intfd.Smap.{Smap, smap_get}
use ops_intfd.Schema.{Idl}
use ops_intfd.Show.{
  Line, interface_lag, no_shutdown, no_routing, lag, lacp_port_id, lacp_port_priority, lacp_mode,
  hash, lacp_fallback_timeout, lacp_rate, lacp_fallback, lacp_fallback_mode_all_active, ip_address,
  ipv6_address, Port, Tables, Host, Out, emit, say, print_header, emit_if, emit_some, holds_other,
}
use ops_intfd.Show.Qos.{qos_port_show_running_config}
use ops_intfd.Show.Layer3.{parse_vlan}

-- &s[n], for an n up to the length of the string.
unfoldable pub drop : ℕ → CString → CString
drop zero s = s
drop (suc n) [] = []
drop (suc n) (c ∷ s) = drop n s

-- A value that begins with the string.
abbrev pub begins : Option CString → CString → Bool
begins none s = false
begins (some value) s = strncmp_is_zero value s (length s)

module _ ⦃host : Host⦄ where
  open host use {lag_prefix, max_ifname_length}

  abbrev pub is_lag : CString → Bool
  is_lag name = strncmp_is_zero name lag_prefix (length lag_prefix)

  abbrev pub lag_id : CString → CString
  lag_id name = drop (length lag_prefix) name

  -- The loop over the interfaces of one port.
  unfoldable pub show_membership : CString → CString → List CString → Out → Out
  unfolding print_header
  show_membership port name [] out = out
  show_membership port name (interface ∷ interfaces) out = show_membership port name interfaces (
      if strncmp_is_zero name interface max_ifname_length
      then say name (lag (lag_id port)) out
      else out)

  unfoldable pub print_interface_lag : List Port → CString → Out → Out
  unfolding show_membership
  print_interface_lag [] name out = out
  print_interface_lag (port ∷ ports) name out =
      print_interface_lag ports name
        (if is_lag port.name then show_membership port.name name port.interfaces out else out)

abbrev pub say_some : CString → Option CString → (CString → Line) → Out → Out
say_some name none line out = out
say_some name (some value) line out = say name (line value) out

module _ ⦃idl : Idl⦄ ⦃host : Host⦄ where
  open host use {
    lacp_port_id_key, lacp_port_priority_key, lacp_fallback_mode_key, lacp_fallback_all_active,
    lacp_fallback_timeout_key, lacp_off, port_admin_up, check_port_in_bridge,
  }

  unfoldable pub parse_lacp_othercfg : Smap → CString → Out → Out
  unfolding print_header
  parse_lacp_othercfg config name out =
      say_some name (smap_get config lacp_port_priority_key) lacp_port_priority
        (say_some name (smap_get config lacp_port_id_key) lacp_port_id out)

  -- The header and the settings of a lag.
  unfoldable pub show_lag : Tables → Port → Out → Out
  unfolding emit_if emit_some
  show_lag tables port out =
      let get = λ (key : CString). smap_get port.other_config key in
      let out1 = emit (interface_lag (lag_id port.name)) out in
      let out2 = emit_if (begins port.admin port_admin_up) no_shutdown out1 in
      let out3 =
        if check_port_in_bridge tables port.name
        then parse_vlan tables port.name (emit no_routing out2)
        else out2 in
      let out4 =
        if holds_other port.lacp lacp_off then emit_some port.lacp lacp_mode out3 else out3 in
      let out5 = emit_some (get (bytes "bond_mode")) hash out4 in
      let out6 =
        emit_if (is_str (get (bytes "lacp-fallback-ab")) (bytes "true")) lacp_fallback out5 in
      let out7 =
        emit_if (is_str (get lacp_fallback_mode_key) lacp_fallback_all_active)
          lacp_fallback_mode_all_active out6 in
      let out8 = emit_some (get lacp_fallback_timeout_key) lacp_fallback_timeout out7 in
      let out9 = emit_some (get (bytes "lacp-time")) lacp_rate out8 in
      record (qos_port_show_running_config tables (some port) (record out9 { printed = true })) {
        printed = out.printed;
      }

  -- The argument is not given, or the name begins with it.
  abbrev pub one_lag_to_show : Option CString → CString → Bool
  one_lag_to_show none name = true
  one_lag_to_show (some arg) name = strncmp_is_zero name arg (length arg)

  -- The loop over the ports: the addresses are printed for every lag.
  unfoldable pub show_lags : Tables → Option CString → List Port → Out → Out
  unfolding show_lag emit_some
  show_lags tables arg [] out = out
  show_lags tables arg (port ∷ ports) out =
      let shown = if one_lag_to_show arg port.name then show_lag tables port out else out in
      show_lags tables arg ports (
        if is_lag port.name
        then emit_some port.ip6_address ipv6_address (emit_some port.ip4_address ip_address shown)
        else out)

  unfoldable pub parse_lag : Tables → Option CString → Out → Out
  unfolding show_lags
  parse_lag tables none out = show_lags tables none tables.ports out
  parse_lag tables (some arg) out =
      if is_lag arg then show_lags tables (some arg) tables.ports out else out
