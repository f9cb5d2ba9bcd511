-- ===== src/Show/Tests.antt =====
-- show running-config of an interface with every setting of user_config.
use ops_intfd.Prelude.{
  pos, ◌≡◌, refl, true, false, Option, none, some, List, [], ◌∷◌, inr, if◌then◌else◌,
}
use mathlib.Core.Option.{map}
use ops_intfd.CString.{CString, bytes, strcmp_is_zero, strtok, skip_space, scan_sign, is_a_number}
use ops_intfd.CString.Strtol.{strtol, strtol_ends}
use ops_intfd.StringMap.{Smap}
use ops_intfd.StringMap.Assoc.{assoc_get}
use ops_intfd.Schema.{UserConfigKey, UserPause}
use ops_intfd.Schema.Sample.{sample}
use ops_intfd.Schema.Distinct.{
  user_config_key-injective, user_autoneg_name-injective, user_pause_name-injective,
}
use ops_intfd.Database.{Ifrow}
use ops_intfd.Database.Sample.{blank_row}
use ops_intfd.Interface.Sample.{user_up}
use ops_intfd.Parse.UserCfg.{parse_user_cfg}
use ops_intfd.Cli.Commands.{accepts_mtu, occurs_token}
use ops_intfd.Cli.OnlyKey.{Command}
use ops_intfd.Show.{interface_name, no_shutdown, setting, Port, Tables, ShowRow, Host}
use ops_intfd.Show.Qos.{
  qos_dscp_port_show_running_config, qos_cos_port_show_running_config,
  qos_apply_port_show_running_config, qos_trust_port_show_running_config,
}
use ops_intfd.Show.Context.{value_of, Message, is_idle_lane, vtysh_intf_context_clientcallback}
use ops_intfd.Show.Running.{lines_of, show_run_row}
use ops_intfd.Show.Running.Filter.{IsPart, shows_pause, flow_lines, show_run_row-IsPart}
use ops_intfd.Show.Replay.{replay}
use ops_intfd.Show.Replay.Columns.{IsStored}
use ops_intfd.Show.Replay.Values.{shown_cfg}
use ops_intfd.Show.Replay.RoundTrip.{replay-parse_user_cfg}

find_port : List Port → CString → Option Port
unfolding strcmp_is_zero
find_port [] name = none
find_port (port ∷ ports) name =
    if strcmp_is_zero port.name name then some port else find_port ports name

instance abbrev host : Host
host = record {
  sflow_key = bytes "sflow-enabled";
  sflow_false = bytes "false";
  default_bridge_name = bytes "bridge_normal";
  default_vrf_name = bytes "vrf_default";
  vlan_mode_access = bytes "access";
  vlan_mode_trunk = bytes "trunk";
  vlan_mode_native_untagged = bytes "native-untagged";
  vlan_mode_native_tagged = bytes "native-tagged";
  proxy_arp_key = bytes "proxy_arp_enabled";
  local_proxy_arp_key = bytes "local_proxy_arp_enabled";
  lacp_port_id_key = bytes "lacp-port-id";
  lacp_port_priority_key = bytes "lacp-port-priority";
  lacp_fallback_mode_key = bytes "lacp_fallback_mode";
  lacp_fallback_all_active = bytes "all_active";
  lacp_fallback_timeout_key = bytes "lacp_fallback_timeout";
  lacp_off = bytes "off";
  port_admin_up = bytes "up";
  bootp_gateway_key = bytes "bootp_gateway";
  lag_prefix = bytes "lag";
  max_ifname_length = 32;
  ospf_hello_key = bytes "hello_interval";
  ospf_dead_key = bytes "dead_interval";
  ospf_retransmit_key = bytes "retransmit_interval";
  ospf_transmit_delay_key = bytes "transmit_delay";
  ospf_hello_default = pos 10;
  ospf_dead_default = pos 40;
  ospf_retransmit_default = pos 5;
  ospf_transmit_delay_default = pos 1;
  ospf_cost_default = pos 10;
  ospf_point_to_point = bytes "pointopoint";
  ospf_auth_text = bytes "text";
  ospf_auth_md5 = bytes "md5";
  ospf_auth_null = bytes "null";
  port_find = λ tables name. find_port tables.ports name;
  port_lookup = λ tables name. find_port tables.ports name;
  check_iface_in_vrf = λ tables name. false;
  check_port_in_bridge = λ tables name. true;
  port_match_in_vrf = λ tables port. bytes "vrf_default";
  display_l3_info = λ port vrf. true;
  port_get_tag = λ port. pos 1;
  port_get_trunks = λ port. [];
}

abbrev configured : Ifrow
configured = record blank_row {
  user_config =
      (bytes "admin", bytes "up")
      ∷ (bytes "speeds", bytes "1000")
      ∷ (bytes "mtu", bytes "9000")
      ∷ (bytes "duplex", bytes "half")
      ∷ (bytes "pause", bytes "rxtx")
      ∷ (bytes "autoneg", bytes "on")
      ∷ [];
  hw_intf_info = (bytes "speeds", bytes "1000,10000") ∷ [];
}

abbrev shown_row : ShowRow
shown_row = record { row = configured; parent = none; subintf_vlan = none; other_config = [] }

abbrev no_tables : Tables
no_tables = record { ports = []; relays = []; forwarders = []; ospf_interfaces = [] }

configured-IsStored : IsStored configured UserPause.rxtx
unfolding assoc_get strcmp_is_zero strtok occurs_token accepts_mtu strtol_ends skip_space scan_sign
    strtol is_a_number
configured-IsStored = record {
  whole = refl;
  speeds_stored = (refl, (bytes "1000,10000", refl, refl));
  mtu_stored = (refl, refl);
  duplex_stored = inr refl;
  pause_stored = refl;
}

-- The filtered display ends with flow control.
show_run_row_filtered :
    lines_of (show_run_row no_tables true shown_row)
    ≡ interface_name (bytes "1")
      ∷ no_shutdown
      ∷ setting (Command.speed (bytes "1000"))
      ∷ setting (Command.mtu (bytes "9000"))
      ∷ setting (Command.duplex (bytes "half"))
      ∷ setting (Command.flowcontrol (bytes "receive") (bytes "on"))
      ∷ setting (Command.flowcontrol (bytes "send") (bytes "on"))
      ∷ []
unfolding show_run_row assoc_get strcmp_is_zero find_port qos_dscp_port_show_running_config
    qos_cos_port_show_running_config qos_apply_port_show_running_config
    qos_trust_port_show_running_config
show_run_row_filtered = refl

show_run_row-IsPart_example :
    IsPart
      (shows_pause shown_row)
      (flow_lines (value_of shown_row.row UserConfigKey.pause))
      (lines_of (show_run_row no_tables false shown_row))
      (lines_of (show_run_row no_tables true shown_row))
show_run_row-IsPart_example = show_run_row-IsPart no_tables shown_row

replay-parse_user_cfg_example :
    (m : Message) × (config : Smap) × (vtysh_intf_context_clientcallback no_tables shown_row
      ≡ some m)
    × (replay configured m.lines [] ≡ some config)
    × (parse_user_cfg (pos 9216) user_up config configured.hw_intf_info
        ≡ map shown_cfg
            (parse_user_cfg (pos 9216) user_up configured.user_config configured.hw_intf_info))
unfolding is_idle_lane strcmp_is_zero
replay-parse_user_cfg_example =
    replay-parse_user_cfg user_config_key-injective user_pause_name-injective refl refl
      user_autoneg_name-injective no_tables shown_row UserPause.rxtx (pos 9216) user_up
      configured.hw_intf_info refl refl configured-IsStored
