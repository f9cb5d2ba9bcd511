-- ===== src/Show/Extends.antt =====
-- The functions of show running-config only add lines, and none takes back that the header is printed.
use ops_intfd.Prelude.{
  Bool, true, false, Option, none, some, List, [], ◌∷◌, ◌++◌, ◌≡◌, refl, sym, ap, ◌∙◌, inl, inr,
  if◌then◌else◌, Bool-cases,
}
use mathlib.Core.List.{append-nil, append_assoc}
use ops_intfd.CString.{CString, strcmp_is_zero, strncmp_is_zero}
use ops_intfd.Smap.{Smap, smap_get}
use ops_intfd.Schema.{Idl}
use ops_intfd.Show.{
  Line, no_routing, no_sflow_enable, vrf_attach, ip_address, ip_address_secondary, ipv6_address,
  ipv6_address_secondary, ip_proxy_arp, ip_local_proxy_arp, lacp_port_id, lacp_port_priority,
  vlan_access, vlan_trunk_allowed, vlan_trunk_native, vlan_trunk_native_tag, Port, Tables, Host,
  Out, emit, say, print_header, emit_if, emit_some, emit_each, show_sflow_config, holds,
}
use ops_intfd.Show.Layer3.{show_vlan_mode, parse_vlan, show_addresses, parse_l3config, is_there}
use ops_intfd.Show.Lag.{
  show_membership, print_interface_lag, parse_lacp_othercfg, is_lag, say_some, lag_id,
}

-- The second output is the first with more lines.
pub record Extends (a b : Out) : Type 0 where
  pub more : List Line
  pub lines_eq : b.lines ≡ a.lines ++ more
  pub stays : a.printed ≡ true → b.printed ≡ true

pub Extends-refl : (a : Out) → Extends a a
Extends-refl a = record { more = []; lines_eq = sym (append-nil a.lines); stays = λ h. h }

pub Extends-trans : {a b c : Out} → Extends a b → Extends b c → Extends a c
Extends-trans {a} {b} {c} p q = record {
  more = p.more ++ q.more;
  lines_eq = q.lines_eq ∙ ap (λ xs. xs ++ q.more) p.lines_eq ∙ append_assoc a.lines p.more q.more;
  stays = λ h. q.stays (p.stays h);
}

pub emit-Extends : (line : Line) (a : Out) → Extends a (emit line a)
emit-Extends line a = record { more = line ∷ []; lines_eq = refl; stays = λ h. h }

pub print_header-Extends : (name : CString) (a : Out) → Extends a (print_header name a)
unfolding print_header
print_header-Extends name a = elim (Bool-cases a.printed) [
  | inl e ↦ record { more = []; lines_eq = rw (e, append-nil a.lines); stays = λ h. rw e refl }
  | inr e ↦ rw e (record { more = _; lines_eq = refl; stays = λ h. refl })
]

pub say-Extends : (name : CString) (line : Line) (a : Out) → Extends a (say name line a)
say-Extends name line a =
    Extends-trans (print_header-Extends name a) (emit-Extends line (print_header name a))

pub if-Extends :
    (test : Bool) (a b c : Out) → Extends a b → Extends a c → Extends a (if test then b else c)
if-Extends true a b c p q = p
if-Extends false a b c p q = q

pub option-Extends {ℓ} :
    {A : Type ℓ} (o : Option A) (a b : Out) (f : A → Out)
    → Extends a b
    → ((x : A) → Extends a (f x))
    → Extends a (elim o [ none ↦ b | some x ↦ f x ])
option-Extends none a b f p q = p
option-Extends (some x) a b f p q = q x

pub emit_if-Extends : (test : Bool) (line : Line) (a : Out) → Extends a (emit_if test line a)
unfolding emit_if
emit_if-Extends test line a =
    if-Extends test a (emit line a) a (emit-Extends line a) (Extends-refl a)

pub emit_some-Extends :
    (v : Option CString) (line : CString → Line) (a : Out) → Extends a (emit_some v line a)
unfolding emit_some
emit_some-Extends none line a = Extends-refl a
emit_some-Extends (some v) line a = emit-Extends (line v) a

pub emit_each-Extends {ℓ} :
    {A : Type ℓ} (line : A → Line) (vs : List A) (a : Out) → Extends a (emit_each line vs a)
unfolding emit_each
emit_each-Extends line [] a = Extends-refl a
emit_each-Extends line (v ∷ vs) a =
    Extends-trans (emit-Extends (line v) a) (emit_each-Extends line vs (emit (line v) a))

module _ ⦃host : Host⦄ where
  open host use {
    port_find, port_get_tag, port_get_trunks, vlan_mode_access, vlan_mode_trunk,
    vlan_mode_native_untagged, vlan_mode_native_tagged,
  }

  show_trunks-Extends :
      (port : Port) {a : Out} (b : Out)
      → Extends a b
      → Extends a (emit_each vlan_trunk_allowed (port_get_trunks port) b)
  show_trunks-Extends port b p =
      Extends-trans p (emit_each-Extends vlan_trunk_allowed (port_get_trunks port) b)

  show_vlan_mode-Extends :
      (port : Port) (mode : CString) (a : Out) → Extends a (show_vlan_mode port mode a)
  unfolding show_vlan_mode
  show_vlan_mode-Extends port mode a =
      let tag = vlan_trunk_native (port_get_tag port) in
      let native = emit_if port.has_vlan_tag tag a in
      let shown : Extends a native = emit_if-Extends port.has_vlan_tag tag a in
      let tagged = emit vlan_trunk_native_tag native in
      let trunks = λ (out : Out). emit_each vlan_trunk_allowed (port_get_trunks port) out in
      if-Extends (strcmp_is_zero mode vlan_mode_access) a (emit (vlan_access (port_get_tag port)) a)
        _ (emit-Extends (vlan_access (port_get_tag port)) a)
        (if-Extends (strcmp_is_zero mode vlan_mode_trunk) a (trunks a) _
          (show_trunks-Extends port a (Extends-refl a))
          (if-Extends (strcmp_is_zero mode vlan_mode_native_untagged) a (trunks native) _
            (show_trunks-Extends port native shown)
            (if-Extends (strcmp_is_zero mode vlan_mode_native_tagged) a (trunks tagged) a
              (show_trunks-Extends port tagged
                (Extends-trans shown (emit-Extends vlan_trunk_native_tag native)))
              (Extends-refl a))))

  pub parse_vlan-Extends :
      (tables : Tables) (name : CString) (a : Out) → Extends a (parse_vlan tables name a)
  unfolding parse_vlan
  parse_vlan-Extends tables name a =
      option-Extends (port_find tables name) a a _ (Extends-refl a) (λ port.
        option-Extends port.vlan_mode a a _ (Extends-refl a)
          (λ mode. show_vlan_mode-Extends port mode a))

module _ ⦃idl : Idl⦄ ⦃host : Host⦄ where
  open host use {
    port_find, check_iface_in_vrf, display_l3_info, port_match_in_vrf, default_vrf_name,
    proxy_arp_key, local_proxy_arp_key, sflow_key, sflow_false, lacp_port_id_key,
    lacp_port_priority_key, max_ifname_length,
  }

  show_addresses-Extends :
      (port : Port) (vrf : CString) (a : Out) → Extends a (show_addresses port vrf a)
  unfolding show_addresses
  show_addresses-Extends port vrf a =
      Extends-trans
        (if-Extends (strcmp_is_zero vrf default_vrf_name) a a (emit (vrf_attach vrf) a)
          (Extends-refl a) (emit-Extends (vrf_attach vrf) a))
        (Extends-trans (emit_some-Extends port.ip4_address ip_address _) (
          Extends-trans (emit_each-Extends ip_address_secondary port.ip4_address_secondary _) (
            Extends-trans (emit_some-Extends port.ip6_address ipv6_address _) (
              Extends-trans (emit_each-Extends ipv6_address_secondary port.ip6_address_secondary _)
                (Extends-trans
                  (emit_if-Extends (is_there (smap_get port.other_config proxy_arp_key))
                    ip_proxy_arp _)
                  (emit_if-Extends (is_there (smap_get port.other_config local_proxy_arp_key))
                    ip_local_proxy_arp _))))))

  pub parse_l3config-Extends :
      (tables : Tables) (name : CString) (a : Out) → Extends a (parse_l3config tables name a)
  unfolding parse_l3config
  parse_l3config-Extends tables name a =
      option-Extends (port_find tables name) a a _ (Extends-refl a) λ port.
        let vrf = port_match_in_vrf tables port in
        let addresses = if display_l3_info port vrf then show_addresses port vrf a else a in
        if-Extends (check_iface_in_vrf tables name) a addresses
          (parse_vlan tables name (emit no_routing a))
          (if-Extends (display_l3_info port vrf) a (show_addresses port vrf a) a
            (show_addresses-Extends port vrf a) (Extends-refl a))
          (Extends-trans (emit-Extends no_routing a)
            (parse_vlan-Extends tables name (emit no_routing a)))

  pub show_sflow_config-Extends :
      (tables : Tables) (name : CString) (a : Out) → Extends a (show_sflow_config tables name a)
  unfolding show_sflow_config
  show_sflow_config-Extends tables name a =
      option-Extends (port_find tables name) a a _ (Extends-refl a) λ port.
        emit_if-Extends (holds (smap_get port.other_config sflow_key) sflow_false) no_sflow_enable a

  say_some-Extends :
      (name : CString) (v : Option CString) (line : CString → Line) (a : Out)
      → Extends a (say_some name v line a)
  say_some-Extends name none line a = Extends-refl a
  say_some-Extends name (some v) line a = say-Extends name (line v) a

  pub parse_lacp_othercfg-Extends :
      (config : Smap) (name : CString) (a : Out) → Extends a (parse_lacp_othercfg config name a)
  unfolding parse_lacp_othercfg
  parse_lacp_othercfg-Extends config name a =
      Extends-trans (say_some-Extends name (smap_get config lacp_port_id_key) lacp_port_id a)
        (say_some-Extends name (smap_get config lacp_port_priority_key) lacp_port_priority _)

  show_membership-Extends :
      (port name : CString) (interfaces : List CString) (a : Out)
      → Extends a (show_membership port name interfaces a)
  unfolding show_membership
  show_membership-Extends port name [] a = Extends-refl a
  show_membership-Extends port name (interface ∷ interfaces) a =
      let out = say name (Line.lag (lag_id port)) a in
      Extends-trans
        (if-Extends (strncmp_is_zero name interface max_ifname_length) a out a
          (say-Extends name (Line.lag (lag_id port)) a) (Extends-refl a))
        (show_membership-Extends port name interfaces _)

  pub print_interface_lag-Extends :
      (ports : List Port) (name : CString) (a : Out) → Extends a (print_interface_lag ports name a)
  unfolding print_interface_lag
  print_interface_lag-Extends [] name a = Extends-refl a
  print_interface_lag-Extends (port ∷ ports) name a =
      Extends-trans
        (if-Extends (is_lag port.name) a (show_membership port.name name port.interfaces a) a
          (show_membership-Extends port.name name port.interfaces a) (Extends-refl a))
        (print_interface_lag-Extends ports name _)
