-- ===== src/Show/Running/Rest.antt =====
-- What cli_show_run_interface_exec of src/cli/intf_vty.c prints after flow control only adds lines.
use ops_intfd.Prelude.{ℤ, pos, ◌==ℤ◌, ltbℤ, ◌&&◌, not, Option, none, some, List, [], ◌∷◌}
use ops_intfd.CString.{CString, strcmp_is_zero}
use ops_intfd.Smap.{smap_get}
use ops_intfd.Schema.{Idl, UserConfigKey, UserAutoneg, LaneSplit}
use ops_intfd.Cli.OnlyKey.{Command}
use ops_intfd.Show.{
  Line, split, setting, ip_helper_address, ip_bootp_gateway, ip_forward_protocol_udp,
  ospf_hello_interval, ospf_dead_interval, ospf_retransmit_interval, ospf_transmit_delay,
  ospf_priority, ospf_cost, ospf_mtu_ignore, ospf_network_point_to_point, ospf_authentication,
  ospf_authentication_message_digest, ospf_authentication_null, ospf_message_digest_key,
  ospf_authentication_key, OspfColumns, Relay, Forwarder, Tables, Port, ShowRow, Host, Out, emit,
  say, print_header, emit_some, emit_each, holds,
}
use ops_intfd.Show.Ospf.{
  ospf_get_port_intervals, find_ospf_interface, emit_unless, first_holds, show_interval,
  show_auth_type, show_ospf, print_interface_ospf,
}
use ops_intfd.Show.Context.{value_of}
use ops_intfd.Show.Running.{
  is_port, show_relays, show_forwarders, run_autoneg, headed_if, show_run_rest,
}
use ops_intfd.Show.Extends.{
  Extends, Extends-refl, Extends-trans, emit-Extends, print_header-Extends, say-Extends, if-Extends,
  option-Extends, emit_if-Extends, emit_some-Extends, emit_each-Extends, parse_l3config-Extends,
  show_sflow_config-Extends, parse_lacp_othercfg-Extends, print_interface_lag-Extends,
}

emit_unless-Extends :
    (v : Option ℤ) (default : ℤ) (line : ℤ → Line) (a : Out)
    → Extends a (emit_unless v default line a)
emit_unless-Extends none default line a = Extends-refl a
emit_unless-Extends (some n) default line a =
    if-Extends (n ==ℤ default) a a (emit (line n) a) (Extends-refl a) (emit-Extends (line n) a)

show_forwarders-Extends :
    (name : CString) (rows : List Forwarder) (a : Out) → Extends a (show_forwarders name rows a)
unfolding show_forwarders
show_forwarders-Extends name [] a = Extends-refl a
show_forwarders-Extends name (row ∷ rows) a =
    let line = λ (server : CString). ip_forward_protocol_udp server row.udp_dport in
    Extends-trans
      (if-Extends (is_port row.src_port name) a (emit_each line row.ipv4_ucast_server a) a
        (emit_each-Extends line row.ipv4_ucast_server a) (Extends-refl a))
      (show_forwarders-Extends name rows _)

module _ ⦃host : Host⦄ where
  open host use {
    ospf_hello_key, ospf_dead_key, ospf_retransmit_key, ospf_transmit_delay_key, ospf_hello_default,
    ospf_dead_default, ospf_retransmit_default, ospf_transmit_delay_default, ospf_cost_default,
    ospf_point_to_point, ospf_auth_text, ospf_auth_md5, ospf_auth_null,
  }

  show_interval-Extends :
      (ospf : OspfColumns) (key : CString) (default : ℤ) (line : ℤ → Line) (a : Out)
      → Extends a (show_interval ospf key default line a)
  unfolding show_interval
  show_interval-Extends ospf key default line a =
      let interval = ospf_get_port_intervals ospf.intervals key in
      emit_if-Extends (ltbℤ (pos 0) interval && not (interval ==ℤ default)) (line interval) a

  show_auth_type-Extends : (auth : Option CString) (a : Out) → Extends a (show_auth_type auth a)
  unfolding show_auth_type
  show_auth_type-Extends none a = Extends-refl a
  show_auth_type-Extends (some auth) a =
      if-Extends (strcmp_is_zero auth ospf_auth_text) a (emit ospf_authentication a) _
        (emit-Extends ospf_authentication a)
        (if-Extends (strcmp_is_zero auth ospf_auth_md5) a
          (emit ospf_authentication_message_digest a) _
          (emit-Extends ospf_authentication_message_digest a)
          (if-Extends (strcmp_is_zero auth ospf_auth_null) a (emit ospf_authentication_null a) a
            (emit-Extends ospf_authentication_null a) (Extends-refl a)))

  show_ospf-Extends : (ospf : OspfColumns) (a : Out) → Extends a (show_ospf ospf a)
  unfolding show_ospf
  show_ospf-Extends ospf a =
      Extends-trans
        (show_interval-Extends ospf ospf_hello_key ospf_hello_default ospf_hello_interval a)
        (Extends-trans
          (show_interval-Extends ospf ospf_dead_key ospf_dead_default ospf_dead_interval _)
          (Extends-trans
            (show_interval-Extends ospf ospf_retransmit_key ospf_retransmit_default
              ospf_retransmit_interval _)
            (Extends-trans
              (show_interval-Extends ospf ospf_transmit_delay_key ospf_transmit_delay_default
                ospf_transmit_delay _)
              (Extends-trans (emit_unless-Extends ospf.priority (pos 1) ospf_priority _) (
                Extends-trans (emit_if-Extends (first_holds ospf.mtu_ignore) ospf_mtu_ignore _) (
                  Extends-trans (emit_unless-Extends ospf.if_out_cost ospf_cost_default ospf_cost _)
                    (Extends-trans
                      (emit_if-Extends (holds ospf.if_type ospf_point_to_point)
                        ospf_network_point_to_point _)
                      (Extends-trans (show_auth_type-Extends ospf.auth_type _) (
                        Extends-trans
                          (emit_each-Extends
                            (λ (key : ℤ × CString). ospf_message_digest_key key.0 key.1)
                            ospf.auth_md5_keys _)
                          (emit_some-Extends ospf.auth_text_key ospf_authentication_key _))))))))))

  print_interface_ospf-Extends :
      (tables : Tables) (name : CString) (a : Out) → Extends a (print_interface_ospf tables name a)
  unfolding print_interface_ospf
  print_interface_ospf-Extends tables name a =
      option-Extends (find_ospf_interface tables.ospf_interfaces name) a a _ (Extends-refl a)
        λ port.
          Extends-trans (print_header-Extends name a)
            (show_ospf-Extends port.ospf (print_header name a))

module _ ⦃idl : Idl⦄ ⦃host : Host⦄ where
  open idl use {user_autoneg_name, lane_split_name}
  open host use {bootp_gateway_key, port_find}

  show_relays-Extends :
      (name : CString) (rows : List Relay) (a : Out) → Extends a (show_relays name rows a)
  unfolding show_relays
  show_relays-Extends name [] a = Extends-refl a
  show_relays-Extends name (row ∷ rows) a =
      let servers = emit_each ip_helper_address row.ipv4_ucast_server a in
      let gateway = smap_get row.other_config bootp_gateway_key in
      Extends-trans
        (if-Extends (is_port row.port name) a (emit_some gateway ip_bootp_gateway servers) a
          (Extends-trans (emit_each-Extends ip_helper_address row.ipv4_ucast_server a)
            (emit_some-Extends gateway ip_bootp_gateway servers))
          (Extends-refl a))
        (show_relays-Extends name rows _)

  run_autoneg-Extends :
      (name : CString) (v : Option CString) (a : Out) → Extends a (run_autoneg name v a)
  run_autoneg-Extends name none a = Extends-refl a
  run_autoneg-Extends name (some v) a =
      let line = setting (Command.autonegotiation v) in
      if-Extends
        (not (strcmp_is_zero v (user_autoneg_name UserAutoneg.default))
          && not (strcmp_is_zero v (user_autoneg_name UserAutoneg.on)))
        a (say name line a) a (say-Extends name line a) (Extends-refl a)

  headed_if-Extends :
      (port : Option Port) (name : CString) (a : Out) → Extends a (headed_if port name a)
  headed_if-Extends none name a = Extends-refl a
  headed_if-Extends (some port) name a = print_header-Extends name a

  pub show_run_rest-Extends :
      (tables : Tables) (r : ShowRow) (a : Out) → Extends a (show_run_rest tables r a)
  unfolding show_run_rest
  show_run_rest-Extends tables r a =
      let name = r.row.name in
      let is_split =
        holds (value_of r.row UserConfigKey.lane_split) (lane_split_name LaneSplit.split) in
      let out1 = run_autoneg name (value_of r.row UserConfigKey.autoneg) a in
      Extends-trans (run_autoneg-Extends name (value_of r.row UserConfigKey.autoneg) a) (
        Extends-trans
          (if-Extends is_split out1 (say name split out1) out1 (say-Extends name split out1)
            (Extends-refl out1))
          (Extends-trans (headed_if-Extends (port_find tables name) name _) (
            Extends-trans (show_sflow_config-Extends tables name _) (
              Extends-trans (parse_l3config-Extends tables name _) (
                Extends-trans (parse_lacp_othercfg-Extends r.other_config name _) (
                  Extends-trans (print_interface_lag-Extends tables.ports name _) (
                    Extends-trans (show_relays-Extends name tables.relays _) (
                      Extends-trans (show_forwarders-Extends name tables.forwarders _)
                        (print_interface_ospf-Extends tables name _)))))))))
