-- ===== src/Show/Context.antt =====
-- vtysh_intf_context_clientcallback of src/cli/vtysh_ovsdb_intf_context.c: the part of show running-config
-- that is about one interface.
use ops_intfd.Prelude.{
  ℤ, pos, ◌==ℤ◌, Bool, true, false, ◌||◌, not, Option, none, some, List, [], ◌∷◌, if◌then◌else◌,
}
use ops_intfd.CString.{CString, bytes, strcmp_is_zero, skip_bytes}
use ops_intfd.Smap.{smap_get}
use ops_intfd.Schema.{Idl, UserConfigKey, UserAutoneg, UserPause, UserDuplex, LaneSplit}
use ops_intfd.Database.{Ifrow}
use ops_intfd.Cli.{is_parent_interface_split}
use ops_intfd.Cli.OnlyKey.{Command}
use ops_intfd.Show.{
  Line, interface_loopback, no_shutdown, split, setting, encapsulation_dot1q, Tables, ShowRow, Host,
  Out, blank_out, emit, say, print_header, holds, show_sflow_config,
}
use ops_intfd.Show.Qos.{qos_port_show_running_config}

-- What the callback leaves in its message: the flags, and the lines.
pub record Message : Type 0 where
  pub skip_subcontext_list : Bool
  pub disp_header_cfg : Bool
  pub lines : List Line

-- The value, if it is there and is not the string.
unfoldable pub say_other : CString → Option CString → CString → (CString → Line) → Out → Out
unfolding print_header
say_other name none default line out = out
say_other name (some value) default line out =
    if strcmp_is_zero value default then out else say name (line value) out

module _ ⦃idl : Idl⦄ where
  open idl use {
    user_config_key, user_autoneg_name, user_pause_name, user_duplex_name, lane_split_name,
    admin_up, speeds_default, mtu_default,
  }

  abbrev pub value_of : Ifrow → UserConfigKey → Option CString
  value_of row key = smap_get row.user_config (user_config_key key)

  -- The lines of the commands on each column of user_config, in the order of the callback.
  unfoldable pub show_admin : Ifrow → Out → Out
  unfolding print_header
  show_admin row out =
      if holds (value_of row UserConfigKey.admin) admin_up
      then say row.name no_shutdown out
      else out

  unfoldable pub show_split : Ifrow → Out → Out
  unfolding print_header
  show_split row out =
      if holds (value_of row UserConfigKey.lane_split) (lane_split_name LaneSplit.split)
      then say row.name split out
      else out

  unfoldable pub show_speed : Ifrow → Out → Out
  unfolding say_other
  show_speed row =
      say_other row.name (value_of row UserConfigKey.speeds) speeds_default
        (λ value. setting (Command.speed value))

  unfoldable pub show_mtu : Ifrow → Out → Out
  unfolding say_other
  show_mtu row =
      say_other row.name (value_of row UserConfigKey.mtu) mtu_default
        (λ value. setting (Command.mtu value))

  unfoldable pub show_duplex : Ifrow → Out → Out
  unfolding say_other
  show_duplex row =
      say_other row.name (value_of row UserConfigKey.duplex) (user_duplex_name UserDuplex.full)
        (λ value. setting (Command.duplex value))

  abbrev pub flowcontrol_on : CString → Line
  flowcontrol_on direction = setting (Command.flowcontrol direction (bytes "on"))

  -- The lines for a value of pause other than none.
  abbrev pub show_directions : CString → CString → Out → Out
  show_directions name value out =
      if strcmp_is_zero value (user_pause_name UserPause.rx)
      then say name (flowcontrol_on (bytes "receive")) out
      else if strcmp_is_zero value (user_pause_name UserPause.tx)
      then say name (flowcontrol_on (bytes "send")) out
      else emit (flowcontrol_on (bytes "send")) (say name (flowcontrol_on (bytes "receive")) out)

  abbrev pub show_pause_value : CString → Option CString → Out → Out
  show_pause_value name none out = out
  show_pause_value name (some value) out =
      if strcmp_is_zero value (user_pause_name UserPause.no_pause)
      then out
      else show_directions name value out

  unfoldable pub show_pause : Ifrow → Out → Out
  unfolding print_header
  show_pause row = show_pause_value row.name (value_of row UserConfigKey.pause)

  abbrev pub show_autoneg_value : CString → Option CString → Out → Out
  show_autoneg_value name none out = out
  show_autoneg_value name (some value) out =
      if strcmp_is_zero value (user_autoneg_name UserAutoneg.default)
        || strcmp_is_zero value (user_autoneg_name UserAutoneg.on)
      then out
      else say name (setting (Command.autonegotiation value)) out

  unfoldable pub show_autoneg : Ifrow → Out → Out
  unfolding print_header
  show_autoneg row = show_autoneg_value row.name (value_of row UserConfigKey.autoneg)

  abbrev pub show_user_config : Ifrow → Out → Out
  show_user_config row out =
      show_autoneg row
        (show_pause row (show_duplex row (show_mtu row (show_speed row (show_split row out)))))

module _ ⦃idl : Idl⦄ ⦃host : Host⦄ where
  open idl use {type_loopback, type_vlansubint}
  open host use {sflow_key, sflow_false, default_bridge_name, port_find, port_lookup}

  -- The block "sFlow config".
  unfoldable pub show_sflow : Tables → CString → Out → Out
  unfolding print_header show_sflow_config
  show_sflow tables name out = elim (port_find tables name) [
    | none ↦ out
    | some port ↦
        if holds (smap_get port.other_config sflow_key) sflow_false
        then show_sflow_config tables name (print_header name out)
        else out
  ]

  abbrev pub vlan_line : Option ℤ → Out → Out
  vlan_line none out = out
  vlan_line (some vlan) out = if vlan ==ℤ pos 0 then out else emit (encapsulation_dot1q vlan) out

  -- The header, and later the tag, of a subinterface.
  unfoldable pub show_subinterface : ShowRow → Out → Out
  unfolding print_header
  show_subinterface r out =
      if strcmp_is_zero r.row.type type_vlansubint then print_header r.row.name out else out

  unfoldable pub show_encapsulation : ShowRow → Out → Out
  show_encapsulation r out =
      if strcmp_is_zero r.row.type type_vlansubint then vlan_line r.subintf_vlan out else out

  -- A lane of an interface that is not split.
  unfoldable pub is_idle_lane : ShowRow → Bool
  unfolding is_parent_interface_split
  is_idle_lane r = elim r.parent [
    | none ↦ false
    | some parent ↦ not (is_parent_interface_split parent)
  ]

  unfoldable pub show_context : Tables → ShowRow → Out
  unfolding show_subinterface show_admin show_sflow show_encapsulation show_split show_speed
      show_mtu show_duplex show_pause show_autoneg
  show_context tables r =
      let out1 = show_admin r.row (show_subinterface r blank_out) in
      let out2 = show_encapsulation r (show_sflow tables r.row.name out1) in
      qos_port_show_running_config tables (port_lookup tables r.row.name)
        (show_user_config r.row out2)

  abbrev skipped : Message
  skipped = record { skip_subcontext_list = true; disp_header_cfg = false; lines = [] }

  abbrev pub message : Out → Message
  message out = record {
    skip_subcontext_list = false;
    disp_header_cfg = out.printed;
    lines = out.lines;
  }

  abbrev loopback_message : CString → Message
  loopback_message number = record {
    skip_subcontext_list = false;
    disp_header_cfg = true;
    lines = interface_loopback number ∷ [];
  }

  unfoldable pub vtysh_intf_context_clientcallback : Tables → ShowRow → Option Message
  unfolding is_idle_lane skip_bytes show_context
  vtysh_intf_context_clientcallback tables r =
      if strcmp_is_zero r.row.name default_bridge_name || is_idle_lane r
      then some skipped
      else if strcmp_is_zero r.row.type type_loopback
      then elim (skip_bytes 8 r.row.name) [
        | none ↦ none
        | some number ↦ some (loopback_message number)
      ]
      else some (message (show_context tables r))
