-- ===== src/Show/Ospf.antt =====
-- print_interface_ospf and ospf_get_port_intervals of src/cli/intf_vty.c.
use ops_intfd.Prelude.{
  ℤ, pos, ltbℤ, ◌==ℤ◌, Bool, false, ◌&&◌, not, Option, none, some, List, [], ◌∷◌, if◌then◌else◌,
}
use ops_intfd.CString.{CString, strcmp_is_zero}
use ops_intfd.Show.{
  Line, ospf_hello_interval, ospf_dead_interval, ospf_retransmit_interval, ospf_transmit_delay,
  ospf_priority, ospf_cost, ospf_mtu_ignore, ospf_network_point_to_point, ospf_authentication,
  ospf_authentication_message_digest, ospf_authentication_null, ospf_message_digest_key,
  ospf_authentication_key, OspfColumns, OspfInterface, Port, Tables, Host, Out, emit, print_header,
  emit_if, emit_some, emit_each, holds,
}

-- The value of the first entry with the key, or 0.
unfoldable pub ospf_get_port_intervals : List (CString × ℤ) → CString → ℤ
ospf_get_port_intervals [] key = pos 0
ospf_get_port_intervals ((k, v) ∷ intervals) key =
    if strcmp_is_zero k key then v else ospf_get_port_intervals intervals key

unfoldable pub find_ospf_interface : List OspfInterface → CString → Option Port
find_ospf_interface [] name = none
find_ospf_interface (row ∷ rows) name =
    if strcmp_is_zero row.name name then row.port else find_ospf_interface rows name

-- A number that is there and is not the default.
abbrev pub emit_unless : Option ℤ → ℤ → (ℤ → Line) → Out → Out
emit_unless none default line out = out
emit_unless (some n) default line out = if n ==ℤ default then out else emit (line n) out

abbrev pub first_holds : List Bool → Bool
first_holds [] = false
first_holds (b ∷ bs) = b

module _ ⦃host : Host⦄ where
  open host use {
    ospf_hello_key, ospf_dead_key, ospf_retransmit_key, ospf_transmit_delay_key, ospf_hello_default,
    ospf_dead_default, ospf_retransmit_default, ospf_transmit_delay_default, ospf_cost_default,
    ospf_point_to_point, ospf_auth_text, ospf_auth_md5, ospf_auth_null,
  }

  -- An interval that is positive and not the default.
  unfoldable pub show_interval : OspfColumns → CString → ℤ → (ℤ → Line) → Out → Out
  unfolding emit_if ospf_get_port_intervals
  show_interval ospf key default line out =
      let interval = ospf_get_port_intervals ospf.intervals key in
      emit_if (ltbℤ (pos 0) interval && not (interval ==ℤ default)) (line interval) out

  unfoldable pub show_auth_type : Option CString → Out → Out
  show_auth_type none out = out
  show_auth_type (some auth) out =
      if strcmp_is_zero auth ospf_auth_text
      then emit ospf_authentication out
      else if strcmp_is_zero auth ospf_auth_md5
      then emit ospf_authentication_message_digest out
      else if strcmp_is_zero auth ospf_auth_null
      then emit ospf_authentication_null out
      else out

  -- What follows the header.
  unfoldable pub show_ospf : OspfColumns → Out → Out
  unfolding show_interval show_auth_type emit_if emit_some emit_each
  show_ospf ospf out =
      let out1 = show_interval ospf ospf_hello_key ospf_hello_default ospf_hello_interval out in
      let out2 = show_interval ospf ospf_dead_key ospf_dead_default ospf_dead_interval out1 in
      let out3 =
        show_interval ospf ospf_retransmit_key ospf_retransmit_default ospf_retransmit_interval
          out2 in
      let out4 =
        show_interval ospf ospf_transmit_delay_key ospf_transmit_delay_default ospf_transmit_delay
          out3 in
      let out5 = emit_unless ospf.priority (pos 1) ospf_priority out4 in
      let out6 = emit_if (first_holds ospf.mtu_ignore) ospf_mtu_ignore out5 in
      let out7 = emit_unless ospf.if_out_cost ospf_cost_default ospf_cost out6 in
      let out8 =
        emit_if (holds ospf.if_type ospf_point_to_point) ospf_network_point_to_point out7 in
      let out9 = show_auth_type ospf.auth_type out8 in
      let out10 =
        emit_each (λ (key : ℤ × CString). ospf_message_digest_key key.0 key.1) ospf.auth_md5_keys
          out9 in
      emit_some ospf.auth_text_key ospf_authentication_key out10

  unfoldable pub print_interface_ospf : Tables → CString → Out → Out
  unfolding show_ospf find_ospf_interface print_header
  print_interface_ospf tables name out = elim (find_ospf_interface tables.ospf_interfaces name) [
    | none ↦ out
    | some port ↦ show_ospf port.ospf (print_header name out)
  ]
