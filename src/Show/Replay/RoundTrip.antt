-- ===== src/Show/Replay/RoundTrip.antt =====
-- show running-config, run again as commands, gives the daemon the same configuration: the callback of
-- src/cli/vtysh_ovsdb_intf_context.c, the handlers of src/cli/intf_vty.c and the parser of src/intfd_ovsdb_if.c.
use ops_intfd.Prelude.{ℤ, false, ◌||◌, none, some, [], ◌≡◌, refl, sym, ◌∙◌}
use mathlib.Core.Option.{map}
use ops_intfd.CString.{bytes, strcmp_is_zero}
use ops_intfd.Smap.{Smap}
use ops_intfd.Schema.{Idl, UserConfigKey, UserAutoneg, UserPause, UserDuplex}
use ops_intfd.Database.{Ifrow}
use ops_intfd.Interface.{IntfUserCfg}
use ops_intfd.Parse.UserCfg.{parse_user_cfg}
use ops_intfd.Show.{Tables, ShowRow, Host, Out, blank_out}
use ops_intfd.Show.Context.{
  Message, message, value_of, show_admin, show_split, show_speed, show_mtu, show_duplex, show_pause,
  show_autoneg, show_user_config, show_sflow, show_subinterface, show_encapsulation, show_context,
  is_idle_lane, vtysh_intf_context_clientcallback,
}
use ops_intfd.Show.Replay.{replay}
use ops_intfd.Show.Replay.Steps.{UserConfigKey-discrete}
use ops_intfd.Show.Replay.Profile.{Profile, put, nothing, nothing-HasProfile, Replayed}
use ops_intfd.Show.Replay.Columns.{
  IsStored, kept_admin, kept_autoneg, show_admin-Replayed, show_speed-Replayed, show_mtu-Replayed,
  show_duplex-Replayed, show_pause-Replayed, show_autoneg-Replayed,
}
use ops_intfd.Show.Replay.Values.{shown_cfg, parse_user_cfg-kept}
use ops_intfd.Show.Replay.Idle.{
  show_subinterface-Replayed, show_sflow-Replayed, show_encapsulation-Replayed,
  qos_port_show_running_config-Replayed,
}

module _ ⦃idl : Idl⦄ ⦃host : Host⦄ where
  open idl use {
    user_config_key, user_autoneg_name, user_pause_name, user_duplex_name, lane_split_name,
    type_loopback,
  }
  open host use {default_bridge_name, port_lookup}

  -- The map that the lines of a row make.
  abbrev after_show : Ifrow → Profile
  after_show row =
      let get = value_of row in
      put
        (put
          (put
            (put
              (put (put nothing UserConfigKey.admin (kept_admin (get UserConfigKey.admin)))
                UserConfigKey.speeds (get UserConfigKey.speeds))
              UserConfigKey.mtu (get UserConfigKey.mtu))
            UserConfigKey.duplex (get UserConfigKey.duplex))
          UserConfigKey.pause (get UserConfigKey.pause))
        UserConfigKey.autoneg (kept_autoneg (get UserConfigKey.autoneg))

  nothing-Replayed : (row : Ifrow) → Replayed row [] nothing
  unfolding replay
  nothing-Replayed row = record { config = []; ran = refl; values = nothing-HasProfile }

  show_whole :
      (row : Ifrow) (out : Out)
      → value_of row UserConfigKey.lane_split ≡ none
      → show_split row out ≡ out
  unfolding show_split
  show_whole row out whole = rw (show_split, whole) refl

  module _ (inj : (a b : UserConfigKey) → user_config_key a ≡ user_config_key b → a ≡ b)
      (pause_inj : (a b : UserPause) → user_pause_name a ≡ user_pause_name b → a ≡ b)
      (half_ne_full : strcmp_is_zero
          (user_duplex_name UserDuplex.half)
          (user_duplex_name UserDuplex.full)
        ≡ false)
      (half_literal : strcmp_is_zero (user_duplex_name UserDuplex.half) (bytes "full")
        ≡ false) where
    show_user_config-Replayed :
        (row : Ifrow) (p : UserPause) (out : Out)
        → IsStored row p
        → Replayed row out.lines
            (put nothing UserConfigKey.admin (kept_admin (value_of row UserConfigKey.admin)))
        → Replayed row (show_user_config row out).lines (after_show row)
    unfolding show_speed show_mtu show_duplex show_pause show_autoneg UserConfigKey-discrete
    show_user_config-Replayed row p out s r0 =
        let w0 = put nothing UserConfigKey.admin (kept_admin (value_of row UserConfigKey.admin)) in
        let out1 = show_speed row out in
        let w1 = put w0 UserConfigKey.speeds (value_of row UserConfigKey.speeds) in
        let r1 : Replayed row out1.lines w1 =
          show_speed-Replayed inj row out w0 refl r0 (value_of row UserConfigKey.speeds)
            s.speeds_stored refl in
        let out2 = show_mtu row out1 in
        let w2 = put w1 UserConfigKey.mtu (value_of row UserConfigKey.mtu) in
        let r2 : Replayed row out2.lines w2 =
          show_mtu-Replayed inj row out1 w1 refl r1 (value_of row UserConfigKey.mtu) s.mtu_stored
            refl in
        let out3 = show_duplex row out2 in
        let w3 = put w2 UserConfigKey.duplex (value_of row UserConfigKey.duplex) in
        let r3 : Replayed row out3.lines w3 =
          show_duplex-Replayed inj row out2 w2 refl r2 (value_of row UserConfigKey.duplex)
            half_ne_full half_literal s.duplex_stored refl in
        let out4 = show_pause row out3 in
        let w4 = put w3 UserConfigKey.pause (value_of row UserConfigKey.pause) in
        let r4 : Replayed row out4.lines w4 =
          rw s.pause_stored (show_pause-Replayed inj row out3 w3 refl r3 pause_inj p refl) in
        let out5 = show_autoneg row out4 in
        let r5 : Replayed row out5.lines (after_show row) =
          show_autoneg-Replayed inj row out4 w4 refl r4 (value_of row UserConfigKey.autoneg) refl in
        rw (show_whole row out s.whole) r5

    show_context-Replayed :
        (tables : Tables) (r : ShowRow) (p : UserPause)
        → IsStored r.row p
        → Replayed r.row (show_context tables r).lines (after_show r.row)
    unfolding show_context UserConfigKey-discrete
    show_context-Replayed tables r p s =
        let row = r.row in
        let w0 = put nothing UserConfigKey.admin (kept_admin (value_of row UserConfigKey.admin)) in
        let start = show_subinterface r blank_out in
        let r1 : Replayed row start.lines nothing =
          show_subinterface-Replayed row nothing r blank_out (nothing-Replayed row) in
        let r2 : Replayed row (show_admin row start).lines w0 =
          show_admin-Replayed inj row start nothing refl r1 refl in
        let out3 = show_sflow tables row.name (show_admin row start) in
        let r3 : Replayed row out3.lines w0 =
          show_sflow-Replayed row w0 tables row.name (show_admin row start) r2 in
        let out4 = show_encapsulation r out3 in
        let r4 : Replayed row out4.lines w0 = show_encapsulation-Replayed row w0 r out3 r3 in
        qos_port_show_running_config-Replayed row (after_show row) tables
          (port_lookup tables row.name) (show_user_config row out4)
          (show_user_config-Replayed row p out4 s r4)

    -- For a row that is not passed over and is no loopback, whose column user_config is as the
    -- commands leave it on an interface that is not split, where the keys and the values of the
    -- columns have different names: the callback gives lines which, run as commands on an empty
    -- column, all succeed, and of the map that they make the daemon parses the same configuration as
    -- of the row's, but that autonegotiation on has become the default.
    pub replay-parse_user_cfg :
        ((a b : UserAutoneg) → user_autoneg_name a ≡ user_autoneg_name b → a ≡ b)
        → (tables : Tables) (r : ShowRow) (p : UserPause)
        → (base_mtu : ℤ) (before : IntfUserCfg) (hw : Smap)
        → (strcmp_is_zero r.row.name default_bridge_name || is_idle_lane r) ≡ false
        → strcmp_is_zero r.row.type type_loopback ≡ false
        → IsStored r.row p
        → (m : Message) × (config : Smap) × (vtysh_intf_context_clientcallback tables r ≡ some m)
          × (replay r.row m.lines [] ≡ some config)
          × (parse_user_cfg base_mtu before config hw
              ≡ map shown_cfg (parse_user_cfg base_mtu before r.row.user_config hw))
    unfolding vtysh_intf_context_clientcallback UserConfigKey-discrete
    replay-parse_user_cfg autoneg_inj tables r p base_mtu before hw shown no_loopback s =
        let done = show_context-Replayed tables r p s in
        (
          message (show_context tables r),
          done.config,
          rw (vtysh_intf_context_clientcallback, shown, no_loopback) refl,
          done.ran,
          parse_user_cfg-kept autoneg_inj base_mtu before done.config r.row.user_config hw
              (done.values UserConfigKey.admin) (done.values UserConfigKey.autoneg)
              (done.values UserConfigKey.pause) (done.values UserConfigKey.duplex)
              (done.values UserConfigKey.speeds) (done.values UserConfigKey.mtu)
              (done.values UserConfigKey.lane_split ∙ sym s.whole),
        )
