-- ===== src/Update/Merge.antt =====
-- What the comparisons miss, and what they leave.
use ops_intfd.Prelude.{
  ℕ, ℤ, pos, negsuc, ◌≡◌, refl, Bool, true, false, ◌||◌, not, is_yes, Option, some, List, [], ◌∷◌,
  ◌==◌, arith, if◌then◌else◌, length, ◌⊎◌, inl, inr, Bool-cases,
}
use ops_intfd.Config.State.{Heap}
use ops_intfd.Parse.UserCfg.{parse_user_cfg}
use ops_intfd.Smap.{Smap}
use ops_intfd.Schema.{Idl, PortAdmin}
use ops_intfd.Database.{Ifrow}
use ops_intfd.Interface.{Iface, IntfUserCfg, IntfPmInfo}
use ops_intfd.Update.{
  UserAdmin-discrete, UserAutoneg-discrete, UserPause-discrete, UserDuplex-discrete,
  LaneSplit-discrete, PmConnector-discrete, ConnectorStatus-discrete, InterfaceType-discrete,
  assign_int, assign, differs, differs_int, read_pm_info, reconfigure, update_modified,
  assign_speeds, speeds_differ, assign_user_cfg, user_cfg_differs, assign_pm_info, pm_info_differs,
}

assign-new {ℓ} : {A : Type ℓ} (d : Discrete A) (old new : A) → assign d old new ≡ new
assign-new d old new = elim (d old new) as (λ c. (if is_yes c then old else new) ≡ new) [
  | yes e ↦ e
  | no _ ↦ refl
]

differs-same {ℓ} :
    {A : Type ℓ} (d : Discrete A) (old new : A) → differs d old new ≡ false → old ≡ new
differs-same d old new = elim (d old new) as (λ c. not (is_yes c) ≡ false → old ≡ new) [
  | yes e ↦ λ _. e
  | no _ ↦ λ h. cc
]

assign_speeds-new : (old new : List ℕ) → length old ≡ length new → assign_speeds old new ≡ new
unfolding assign_speeds
assign_speeds-new [] [] h = refl
assign_speeds-new [] (t ∷ new) h = absurd (omega arith)
assign_speeds-new (s ∷ old) [] h = absurd (omega arith)
assign_speeds-new (s ∷ old) (t ∷ new) h = ground (arith, assign_speeds-new old new (ground arith))

speeds_differ-same :
    (old new : List ℕ) → length old ≡ length new → speeds_differ old new ≡ false → old ≡ new
unfolding speeds_differ
speeds_differ-same [] [] h e = refl
speeds_differ-same [] (t ∷ new) h e = absurd (omega arith)
speeds_differ-same (s ∷ old) [] h e = absurd (omega arith)
speeds_differ-same (s ∷ old) (t ∷ new) h e =
    ground (arith, speeds_differ-same old new (ground arith))

assign_int-new : (old new : ℤ) → assign_int old new ≡ new
assign_int-new (pos a) (pos b) = ground arith
assign_int-new (pos a) (negsuc b) = refl
assign_int-new (negsuc a) (pos b) = refl
assign_int-new (negsuc a) (negsuc b) = ground arith

differs_int-same : (old new : ℤ) → differs_int old new ≡ false → old ≡ new
differs_int-same (pos a) (pos b) h = ground arith
differs_int-same (pos a) (negsuc b) h = absurd (ground arith)
differs_int-same (negsuc a) (pos b) h = absurd (ground arith)
differs_int-same (negsuc a) (negsuc b) h = ground arith

-- The comparisons field by field copy all: with arrays of one length, the result is the new
-- configuration.
assign_user_cfg-new :
    (old new : IntfUserCfg) → length old.speeds ≡ length new.speeds → assign_user_cfg old new ≡ new
unfolding assign_user_cfg
assign_user_cfg-new old new h i = record {
  admin_state = assign-new UserAdmin-discrete old.admin_state new.admin_state i;
  autoneg = assign-new UserAutoneg-discrete old.autoneg new.autoneg i;
  pause = assign-new UserPause-discrete old.pause new.pause i;
  duplex = assign-new UserDuplex-discrete old.duplex new.duplex i;
  lane_split = assign-new LaneSplit-discrete old.lane_split new.lane_split i;
  speeds = assign_speeds-new old.speeds new.speeds h i;
  n_speeds = assign_int-new old.n_speeds new.n_speeds i;
  mtu = assign_int-new old.mtu new.mtu i;
}

assign_pm_info-new : (old new : IntfPmInfo) → assign_pm_info old new ≡ new
unfolding assign_pm_info
assign_pm_info-new old new i = record {
  op_connector_flags = same_flags i;
  connector = assign-new PmConnector-discrete old.connector new.connector i;
  connector_status =
      assign-new ConnectorStatus-discrete old.connector_status new.connector_status i;
  intf_type = assign-new InterfaceType-discrete old.intf_type new.intf_type i;
}
  where
    same_flags :
        (if old.op_connector_flags == new.op_connector_flags
          then old.op_connector_flags
          else new.op_connector_flags)
        ≡ new.op_connector_flags
    same_flags = ground arith

||_false : (a b : Bool) → (a || b) ≡ false → (a ≡ false) × (b ≡ false)
||_false a b h = (ground arith, ground arith)

user_cfg_differs-same :
    (old new : IntfUserCfg)
    → length old.speeds ≡ length new.speeds
    → user_cfg_differs old new ≡ false
    → old ≡ new
unfolding user_cfg_differs
user_cfg_differs-same old new l h =
    let (r7, h8) = ||_false _ _ h in
    let (r6, h7) = ||_false _ _ r7 in
    let (r5, h6) = ||_false _ _ r6 in
    let (r4, h5) = ||_false _ _ r5 in
    let (r3, h4) = ||_false _ _ r4 in
    let (r2, h3) = ||_false _ _ r3 in
    let (h1, h2) = ||_false _ _ r2 in
    λ i. record {
      admin_state = differs-same UserAdmin-discrete old.admin_state new.admin_state h1 i;
      autoneg = differs-same UserAutoneg-discrete old.autoneg new.autoneg h2 i;
      pause = differs-same UserPause-discrete old.pause new.pause h3 i;
      duplex = differs-same UserDuplex-discrete old.duplex new.duplex h4 i;
      lane_split = differs-same LaneSplit-discrete old.lane_split new.lane_split h8 i;
      speeds = speeds_differ-same old.speeds new.speeds l h6 i;
      n_speeds = differs_int-same old.n_speeds new.n_speeds h7 i;
      mtu = differs_int-same old.mtu new.mtu h5 i;
    }

flags-same : (a b : ℕ) → not (a == b) ≡ false → a ≡ b
flags-same a b h = ground arith

pm_info_differs-same : (old new : IntfPmInfo) → pm_info_differs old new ≡ false → old ≡ new
unfolding pm_info_differs
pm_info_differs-same old new h =
    let (r3, h4) = ||_false _ _ h in
    let (r2, h3) = ||_false _ _ r3 in
    let (h1, h2) = ||_false _ _ r2 in
    λ i. record {
      op_connector_flags = flags-same old.op_connector_flags new.op_connector_flags h4 i;
      connector = differs-same PmConnector-discrete old.connector new.connector h1 i;
      connector_status =
          differs-same ConnectorStatus-discrete old.connector_status new.connector_status h2 i;
      intf_type = differs-same InterfaceType-discrete old.intf_type new.intf_type h3 i;
    }

module _ ⦃idl : Idl⦄ where
  -- The interface with the columns of its row, read anew.
  abbrev pub refreshed : Iface → PortAdmin → IntfUserCfg → Option Smap → Ifrow → Iface
  refreshed intf port_admin new parent row = record intf {
    port_admin = port_admin;
    user_cfg = new;
    pm_info = read_pm_info intf.hw_info parent row.pm_info;
  }

  -- Where the row's columns can be parsed to a configuration whose array of speeds is as long as
  -- the old one: the comparisons miss no change. Either the interface is configured anew from the
  -- columns as they are now, or its configuration and its module are those that it had, and the
  -- row is not written.
  pub update_modified-refreshed :
      (heap : Heap) (base_mtu : ℤ) (stack : IntfUserCfg) (port_admin : PortAdmin)
      (parent : Option Smap) (row : Ifrow) (intf : Iface) (new : IntfUserCfg)
      → parse_user_cfg base_mtu stack row.user_config row.hw_intf_info ≡ some new
      → length intf.user_cfg.speeds ≡ length new.speeds
      → let found = refreshed intf port_admin new parent row in
        let result = update_modified heap base_mtu stack port_admin parent row intf in
        (result ≡ reconfigure heap row found true)
        ⊎ ((result ≡ some (false, row, found))
            × (intf.user_cfg ≡ found.user_cfg)
            × (intf.pm_info ≡ found.pm_info))
  unfolding update_modified reconfigure
  update_modified-refreshed heap base_mtu stack port_admin parent row intf new h l =
      let pm = read_pm_info intf.hw_info parent row.pm_info in
      let a = assign_user_cfg-new intf.user_cfg new l in
      let b = assign_pm_info-new intf.pm_info pm in
      elim (Bool-cases (user_cfg_differs intf.user_cfg new || pm_info_differs intf.pm_info pm)) [
        | inl e ↦ inl (rw (h, e, a, b) refl)
        | inr e ↦
            let (e1, e2) = ||_false _ _ e in
            inr (
              rw (h, e, a, b) refl,
              user_cfg_differs-same intf.user_cfg new l e1,
              pm_info_differs-same intf.pm_info pm e2,
            )
      ]
