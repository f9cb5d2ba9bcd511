-- ===== src/Show/Management.antt =====
-- show running-config interface mgmt of src/cli/intf_vty.c: cli_show_run_interface_mgmt_exec.
use ops_intfd.Prelude.{Bool, ◌&&◌, not, Option, none, some, List, [], ◌∷◌, ◌++◌, if◌then◌else◌}
use ops_intfd.CString.{CString, strcmp_is_zero}
use ops_intfd.Smap.{Smap, smap_get}
use ops_intfd.Schema.{Idl}

-- A printed line. The mask of an IPv6 address is that of the IPv4 address, and may be null.
pub data MgmtLine : Type 0 where
  interface_mgmt : MgmtLine
  ip_static : CString → CString → MgmtLine
  ipv6_static : CString → Option CString → MgmtLine
  default_gateway nameserver : CString → MgmtLine
  nameservers : CString → CString → MgmtLine

-- CMD_OVSDB_FAILURE, e_vtysh_ok and CMD_SUCCESS
pub data MgmtResult : Type 0 where
  ovsdb_failure vtysh_ok success : MgmtResult

-- The strings of generated headers, and the macro VTYSH_STR_EQ of the shell.
pub record MgmtNames : Type 0 where
  pub mode_key : CString
  pub mode_static : CString
  pub ip_key : CString
  pub subnet_mask_key : CString
  pub ipv6_key : CString
  pub default_gateway_key : CString
  pub default_gateway_v6_key : CString
  pub dns_server_1_key : CString
  pub dns_server_2_key : CString
  pub default_ip : CString
  pub default_ipv6 : CString
  pub vtysh_str_eq : CString → CString → Bool

-- A value that is there and is not the default, as a line.
unfoldable pub unless_default : CString → (CString → MgmtLine) → Option CString → List MgmtLine
unless_default default line none = []
unless_default default line (some value) =
    if not (strcmp_is_zero value default) then line value ∷ [] else []

module _ (names : MgmtNames) where
  open names use {
    mode_key, mode_static, ip_key, subnet_mask_key, ipv6_key, default_gateway_key,
    default_gateway_v6_key, dns_server_1_key, dns_server_2_key, default_ip, default_ipv6,
    vtysh_str_eq,
  }

  unfoldable pub show_ipv4 : Option CString → Option CString → List MgmtLine
  unfolding unless_default
  show_ipv4 ip none = []
  show_ipv4 ip (some subnet) = unless_default default_ip (λ address. ip_static address subnet) ip

  unfoldable pub show_dns : Option CString → Option CString → List MgmtLine
  unfolding unless_default
  show_dns none dns_2 = []
  show_dns (some dns_1) none = unless_default default_ip nameserver (some dns_1)
  show_dns (some dns_1) (some dns_2) =
      if not (strcmp_is_zero dns_1 default_ip) && not (strcmp_is_zero dns_2 default_ip)
      then nameservers dns_1 dns_2 ∷ []
      else unless_default default_ip nameserver (some dns_1)

  module _ ⦃idl : Idl⦄ where
    -- What follows the mode static.
    unfoldable pub show_static : Smap → List MgmtLine
    unfolding show_ipv4 show_dns unless_default
    show_static mgmt_intf =
        let subnet = smap_get mgmt_intf subnet_mask_key in
        interface_mgmt ∷ show_ipv4 (smap_get mgmt_intf ip_key) subnet
        ++ unless_default default_ipv6 (λ ip. ipv6_static ip subnet) (smap_get mgmt_intf ipv6_key)
        ++ unless_default default_ip default_gateway (smap_get mgmt_intf default_gateway_key)
        ++ unless_default default_ipv6 default_gateway (smap_get mgmt_intf default_gateway_v6_key)
        ++ show_dns (smap_get mgmt_intf dns_server_1_key) (smap_get mgmt_intf dns_server_2_key)

    -- The column mgmt_intf of the first row of the System table, if there is one.
    unfoldable pub cli_show_run_interface_mgmt_exec : Option Smap → MgmtResult × List MgmtLine
    unfolding show_static
    cli_show_run_interface_mgmt_exec none = (ovsdb_failure, [])
    cli_show_run_interface_mgmt_exec (some mgmt_intf) = elim (smap_get mgmt_intf mode_key) [
      | none ↦ (vtysh_ok, [])
      | some mode ↦
          if vtysh_str_eq mode mode_static then (success, show_static mgmt_intf) else (success, [])
    ]
