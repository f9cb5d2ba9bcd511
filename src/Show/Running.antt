-- ===== src/Show/Running.antt =====
-- show running-config interface of src/cli/intf_vty.c: cli_show_run_interface_exec. `rows` are the rows in
-- the order that sort_interface gives them.
pub mod Rest
pub mod Filter
use ops_intfd.Prelude.{
  ℤ, pos, ◌==ℤ◌, Bool, true, false, ◌&&◌, not, Option, none, some, List, [], ◌∷◌, ◌++◌,
  if◌then◌else◌,
}
use ops_intfd.CString.{CString, bytes, strcmp_is_zero}
use ops_intfd.Smap.{smap_get}
use ops_intfd.Schema.{Idl, UserConfigKey, UserAutoneg, UserPause, UserDuplex, LaneSplit}
use ops_intfd.Cli.OnlyKey.{Command}
use ops_intfd.Show.{
  Line, exit, no_shutdown, split, setting, encapsulation_dot1q, ip_helper_address, ip_bootp_gateway,
  ip_forward_protocol_udp, Relay, Forwarder, Tables, Port, ShowRow, Host, Out, blank_out, emit, say,
  print_header, emit_some, emit_each, holds, show_sflow_config,
}
use ops_intfd.Show.Qos.{qos_port_show_running_config}
use ops_intfd.Show.Layer3.{parse_l3config}
use ops_intfd.Show.Ospf.{print_interface_ospf}
use ops_intfd.Show.Lag.{parse_lacp_othercfg, print_interface_lag, parse_lag}
use ops_intfd.Show.Context.{value_of}

-- How a pass of the loop ends: with the next row, by the break, or by the return.
pub data Pass : Type 0 where
  next stop return : List Line → Pass

abbrev pub lines_of : Pass → List Line
lines_of (next lines) = lines
lines_of (stop lines) = lines
lines_of (return lines) = lines

-- The name is that of the row's port, which may be null.
abbrev pub is_port : Option CString → CString → Bool
is_port none name = false
is_port (some port) name = strcmp_is_zero port name

unfoldable pub show_forwarders : CString → List Forwarder → Out → Out
unfolding emit_each
show_forwarders name [] out = out
show_forwarders name (row ∷ rows) out =
    let shown =
      emit_each (λ server. ip_forward_protocol_udp server row.udp_dport) row.ipv4_ucast_server
        out in
    show_forwarders name rows (if is_port row.src_port name then shown else out)

module _ ⦃idl : Idl⦄ ⦃host : Host⦄ where
  open idl use {
    user_config_key, user_autoneg_name, user_pause_name, user_duplex_name, lane_split_name,
    admin_up, speeds_default, mtu_default,
  }
  open host use {port_find, bootp_gateway_key}

  unfoldable pub show_relays : CString → List Relay → Out → Out
  unfolding emit_each emit_some
  show_relays name [] out = out
  show_relays name (row ∷ rows) out =
      let servers = emit_each ip_helper_address row.ipv4_ucast_server out in
      let shown =
        emit_some (smap_get row.other_config bootp_gateway_key) ip_bootp_gateway servers in
      show_relays name rows (if is_port row.port name then shown else out)

  -- A value that is shown unless it is the default.
  abbrev pub run_value : CString → Option CString → CString → (CString → Command) → Out → Out
  run_value name none default command out = out
  run_value name (some value) default command out =
      if not (strcmp_is_zero value default) then say name (setting (command value)) out else out

  abbrev pub run_vlan : CString → Option ℤ → Out → Out
  run_vlan name none out = out
  run_vlan name (some vlan) out =
      if vlan ==ℤ pos 0 then out else say name (encapsulation_dot1q vlan) out

  -- The columns up to the speed of flow control.
  unfoldable pub show_run_settings : Tables → ShowRow → Out → Out
  unfolding print_header
  show_run_settings tables r out =
      let name = r.row.name in
      let out1 =
        if holds (value_of r.row UserConfigKey.admin) admin_up
        then say name no_shutdown out
        else out in
      let out2 = run_vlan name r.subintf_vlan out1 in
      let out3 =
        run_value name (value_of r.row UserConfigKey.speeds) speeds_default Command.speed out2 in
      let out4 = run_value name (value_of r.row UserConfigKey.mtu) mtu_default Command.mtu out3 in
      let out5 =
        run_value name (value_of r.row UserConfigKey.duplex) (user_duplex_name UserDuplex.full)
          Command.duplex out4 in
      qos_port_show_running_config tables (port_find tables name) out5

  abbrev pub flowcontrol_on : CString → Line
  flowcontrol_on direction = setting (Command.flowcontrol direction (bytes "on"))

  -- The lines of a value of pause.
  unfoldable pub show_run_pause : CString → CString → Out → Out
  unfolding print_header
  show_run_pause name value out =
      let headed = print_header name out in
      if strcmp_is_zero value (user_pause_name UserPause.rx)
      then emit (flowcontrol_on (bytes "receive")) headed
      else if strcmp_is_zero value (user_pause_name UserPause.tx)
      then emit (flowcontrol_on (bytes "send")) headed
      else emit (flowcontrol_on (bytes "send")) (emit (flowcontrol_on (bytes "receive")) headed)

  abbrev pub run_autoneg : CString → Option CString → Out → Out
  run_autoneg name none out = out
  run_autoneg name (some value) out =
      if not (strcmp_is_zero value (user_autoneg_name UserAutoneg.default))
        && not (strcmp_is_zero value (user_autoneg_name UserAutoneg.on))
      then say name (setting (Command.autonegotiation value)) out
      else out

  abbrev pub headed_if : Option Port → CString → Out → Out
  headed_if none name out = out
  headed_if (some port) name out = print_header name out

  -- What follows flow control, up to OSPF.
  unfoldable pub show_run_rest : Tables → ShowRow → Out → Out
  unfolding print_header show_sflow_config parse_l3config parse_lacp_othercfg print_interface_lag
      show_relays show_forwarders print_interface_ospf
  show_run_rest tables r out =
      let name = r.row.name in
      let out1 = run_autoneg name (value_of r.row UserConfigKey.autoneg) out in
      let out2 =
        if holds (value_of r.row UserConfigKey.lane_split) (lane_split_name LaneSplit.split)
        then say name split out1
        else out1 in
      let out3 = headed_if (port_find tables name) name out2 in
      let out4 = parse_l3config tables name (show_sflow_config tables name out3) in
      let out5 =
        print_interface_lag tables.ports name (parse_lacp_othercfg r.other_config name out4) in
      let out6 = show_forwarders name tables.forwarders (show_relays name tables.relays out5) in
      print_interface_ospf tables name out6

  -- The end of a pass. `filtered` is argc != 0.
  abbrev pub finish_row : Bool → Out → Pass
  finish_row filtered out =
      if out.printed
      then (if filtered then return (out.lines ++ exit ∷ []) else next (out.lines ++ exit ∷ []))
      else next out.lines

  unfoldable pub show_run_row : Tables → Bool → ShowRow → Pass
  unfolding show_run_settings show_run_pause show_run_rest
  show_run_row tables filtered r =
      let out1 = show_run_settings tables r blank_out in
      elim (value_of r.row UserConfigKey.pause) [
        | none ↦ finish_row filtered (show_run_rest tables r out1)
        | some value ↦
            if not (strcmp_is_zero value (user_pause_name UserPause.no_pause))
            then (if filtered
                then stop (show_run_pause r.row.name value out1).lines
                else finish_row filtered
                    (show_run_rest tables r (show_run_pause r.row.name value out1)))
            else finish_row filtered (show_run_rest tables r out1)
      ]

  -- The row is passed over by the argument.
  abbrev pub is_filtered_out : Option CString → CString → Bool
  is_filtered_out none name = false
  is_filtered_out (some arg) name = not (strcmp_is_zero arg name)

  abbrev pub is_given {ℓ} : {A : Type ℓ} → Option A → Bool
  is_given none = false
  is_given (some a) = true

  unfoldable pub show_run_rows : Tables → Option CString → List ShowRow → List Line → Pass
  unfolding show_run_row
  show_run_rows tables arg [] lines = next lines
  show_run_rows tables arg (r ∷ rows) lines =
      if is_filtered_out arg r.row.name
      then show_run_rows tables arg rows lines
      else elim (show_run_row tables (is_given arg) r) [
        | next more ↦ show_run_rows tables arg rows (lines ++ more)
        | stop more ↦ stop (lines ++ more)
        | return more ↦ return (lines ++ more)
      ]

  unfoldable pub cli_show_run_interface_exec : Tables → List ShowRow → Option CString → List Line
  unfolding show_run_rows parse_lag
  cli_show_run_interface_exec tables rows arg = elim (show_run_rows tables arg rows []) [
    | next lines ↦ (parse_lag tables arg (record { printed = false; lines = lines })).lines
    | stop lines ↦ (parse_lag tables arg (record { printed = false; lines = lines })).lines
    | return lines ↦ lines
  ]
