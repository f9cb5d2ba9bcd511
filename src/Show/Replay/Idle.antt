-- ===== src/Show/Replay/Idle.antt =====
-- The lines that src/cli/vtysh_ovsdb_intf_context.c prints of other columns than user_config change nothing there when
-- they are run.
use ops_intfd.Prelude.{
  ℤ, pos, ◌==ℤ◌, Option, none, some, List, ◌≡◌, refl, inl, inr, Bool-cases, Option-cases,
}
use ops_intfd.CString.{CString, strcmp_is_zero}
use ops_intfd.Smap.{Smap, smap_get}
use ops_intfd.Schema.{Idl}
use ops_intfd.Database.{Ifrow}
use ops_intfd.Show.{
  Line, no_sflow_enable, encapsulation_dot1q, qos_trust, qos_cos, qos_dscp,
  apply_qos_schedule_profile, Port, Tables, ShowRow, Host, Out, print_header, show_sflow_config,
  emit_if, holds,
}
use ops_intfd.Show.Qos.{
  show_port_value, is_member_of_lag, qos_trust_port_show_running_config,
  qos_cos_port_show_running_config, qos_apply_port_show_running_config,
  qos_dscp_port_show_running_config, qos_port_show_running_config,
}
use ops_intfd.Show.Context.{show_sflow, show_subinterface, show_encapsulation, vlan_line}
use ops_intfd.Show.Replay.{run_line}
use ops_intfd.Show.Replay.Profile.{
  Profile, Replayed, emit-Replayed, say-Replayed, header-Replayed, idle_lem,
}

-- Lines that leave user_config alone.
module _ ⦃idl : Idl⦄ (row : Ifrow) (w : Profile) where
  show_port_value-Replayed :
      (ports : List Port) (value : Port → Option CString) (line : CString → Line)
      → ((v : CString) (config : Smap) → run_line row (line v) config ≡ some config)
      → (port : Option Port) (out : Out) → Replayed row out.lines w
      → Replayed row (show_port_value ports value line port out).lines w
  unfolding show_port_value
  show_port_value-Replayed ports value line idle none out r = r
  show_port_value-Replayed ports value line idle (some port) out r =
      elim (Bool-cases (is_member_of_lag ports port.name)) [
        | inl e ↦ rw e r
        | inr e ↦ elim (Option-cases (value port)) [
          | inl n ↦ rw (e, n) r
          | inr (v, s) ↦
              rw (e, s)
                (say-Replayed row port.name (line v) out w w (idle_lem row (line v) w (idle v)) r)
        ]
      ]

  pub qos_port_show_running_config-Replayed :
      (tables : Tables) (port : Option Port) (out : Out)
      → Replayed row out.lines w
      → Replayed row (qos_port_show_running_config tables port out).lines w
  unfolding run_line qos_trust_port_show_running_config qos_cos_port_show_running_config
      qos_apply_port_show_running_config qos_dscp_port_show_running_config
  qos_port_show_running_config-Replayed tables port out r =
      show_port_value-Replayed tables.ports _ qos_dscp (λ v config. refl) port _
        (show_port_value-Replayed tables.ports _ qos_cos (λ v config. refl) port _
          (show_port_value-Replayed tables.ports _ apply_qos_schedule_profile (λ v config. refl)
            port _
            (show_port_value-Replayed tables.ports _ qos_trust (λ v config. refl) port out r)))

  module _ ⦃host : Host⦄ where
    open host use {port_find, sflow_key, sflow_false}
    open idl use {type_vlansubint}

    show_sflow_config-Replayed :
        (tables : Tables) (name : CString) (out : Out)
        → Replayed row out.lines w
        → Replayed row (show_sflow_config tables name out).lines w
    unfolding show_sflow_config emit_if run_line
    show_sflow_config-Replayed tables name out r = elim (Option-cases (port_find tables name)) [
      | inl n ↦ rw (show_sflow_config, n) r
      | inr (port, s) ↦
          elim (Bool-cases (holds (smap_get port.other_config sflow_key) sflow_false)) [
            | inl e ↦
                rw (show_sflow_config, s, e)
                  (emit-Replayed row no_sflow_enable out.lines w w
                    (idle_lem row no_sflow_enable w (λ config. refl)) r)
            | inr e ↦ rw (show_sflow_config, s, e) r
          ]
    ]

    pub show_sflow-Replayed :
        (tables : Tables) (name : CString) (out : Out)
        → Replayed row out.lines w
        → Replayed row (show_sflow tables name out).lines w
    unfolding show_sflow
    show_sflow-Replayed tables name out r = elim (Option-cases (port_find tables name)) [
      | inl n ↦ rw (show_sflow, n) r
      | inr (port, s) ↦
          elim (Bool-cases (holds (smap_get port.other_config sflow_key) sflow_false)) [
            | inl e ↦
                rw (show_sflow, s, e)
                  (show_sflow_config-Replayed tables name (print_header name out)
                    (header-Replayed row name out w r))
            | inr e ↦ rw (show_sflow, s, e) r
          ]
    ]

    pub vlan_line-Replayed :
        (vlan : Option ℤ) (out : Out)
        → Replayed row out.lines w
        → Replayed row (vlan_line vlan out).lines w
    unfolding run_line
    vlan_line-Replayed none out r = r
    vlan_line-Replayed (some vlan) out r = elim (Bool-cases (vlan ==ℤ pos 0)) [
      | inl e ↦ rw e r
      | inr e ↦ rw e (
          emit-Replayed row (encapsulation_dot1q vlan) out.lines w w
            (idle_lem row (encapsulation_dot1q vlan) w (λ config. refl)) r)
    ]

    pub show_subinterface-Replayed :
        (r : ShowRow) (out : Out)
        → Replayed row out.lines w
        → Replayed row (show_subinterface r out).lines w
    unfolding show_subinterface
    show_subinterface-Replayed r out done =
        elim (Bool-cases (strcmp_is_zero r.row.type type_vlansubint)) [
          | inl e ↦ rw e (header-Replayed row r.row.name out w done)
          | inr e ↦ rw e done
        ]

    pub show_encapsulation-Replayed :
        (r : ShowRow) (out : Out)
        → Replayed row out.lines w
        → Replayed row (show_encapsulation r out).lines w
    unfolding show_encapsulation
    show_encapsulation-Replayed r out done =
        elim (Bool-cases (strcmp_is_zero r.row.type type_vlansubint)) [
          | inl e ↦ rw e (vlan_line-Replayed r.subintf_vlan out done)
          | inr e ↦ rw e done
        ]
