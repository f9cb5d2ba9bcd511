-- ===== src/Daemon/Run.antt =====
-- intfd_reconfigure and intfd_run of src/intfd_ovsdb_if.c: one round of the daemon.
use ops_intfd.Prelude.{
  ℕ, ℤ, pos, ltbℤ, Bool, true, false, ◌||◌, not, Option, none, some, List, [], ◌∷◌, ◌==◌, map,
  if◌then◌else◌, ◌>>=◌,
}
use ops_intfd.CString.{CString, bytes, strcmp_is_zero, atoi}
use ops_intfd.Smap.{Smap, smap_get}
use ops_intfd.Schema.{Idl}
use ops_intfd.Database.{Ifrow}
use ops_intfd.Interface.{IntfUserCfg}
use ops_intfd.Pass.{arbiter_run}
use ops_intfd.Daemon.{Shash, Rows, Feed, World, for_each}
use ops_intfd.Daemon.PortChanges.{port_reconfigure}
use ops_intfd.Daemon.Interfaces.{collect_rows, del_interfaces, add_missing}
use ops_intfd.Daemon.InterfaceChanges.{handle_interfaces_config_mods}

-- The rows with other contents, in their order.
unfoldable pub replace_rows : Rows → List Ifrow → Rows
replace_rows ((r, _) ∷ rows) (row ∷ rest) = (r, row) ∷ replace_rows rows rest
replace_rows rows rest = rows

module _ ⦃idl : Idl⦄ where
  open idl use {max_transmission_unit_key}

  -- The loop over the Subsystem table: the last row of the name "base" that has an MTU decides.
  unfoldable pub read_base_mtu : List (CString × Smap) → ℤ → ℤ
  read_base_mtu [] mtu = mtu
  read_base_mtu ((name, other_info) ∷ rest) mtu = read_base_mtu rest (
      if strcmp_is_zero name (bytes "base")
      then (elim (smap_get other_info max_transmission_unit_key) [
        | none ↦ mtu
        | some str ↦ atoi str
      ])
      else mtu)

  -- The interfaces of the cache are made those of the table.
  unfoldable pub sync_interfaces : Feed → World → Option World
  unfolding collect_rows del_interfaces for_each add_missing
  sync_interfaces feed w =
      let present = collect_rows w.rows [] in
      for_each (add_missing feed.ports) present (del_interfaces present w.all_interfaces w)

  -- intfd_arbiter_run
  unfoldable pub run_arbiter : World → Option (Bool × World)
  unfolding replace_rows
  run_arbiter w = do
    (rc, layers, rows) ← arbiter_run w.layers (map (λ (entry : ℕ × Ifrow). entry.1) w.rows)
    some (rc, record w { layers = layers; rows = replace_rows w.rows rows })

  -- intfd_reconfigure once the cache is that of the table, whose names are `present`.
  unfoldable pub finish_round : IntfUserCfg → Feed → Shash ℕ → World → Option (Bool × World)
  unfolding run_arbiter
  finish_round stack feed present w = do
    (rc1, w1) ← port_reconfigure feed w
    (rc2, w2) ← handle_interfaces_config_mods stack feed.ports present w1
    (rc3, w3) ← run_arbiter w2
    some (rc1 || rc2 || rc3, record w3 { idl_seqno = feed.seqno })

  -- The Boolean is whether the result is not zero.
  unfoldable pub intfd_reconfigure : IntfUserCfg → Feed → World → Option (Bool × World)
  unfolding read_base_mtu sync_interfaces finish_round collect_rows
  intfd_reconfigure stack feed w = if feed.seqno == w.idl_seqno then some (false, w) else (do
    w' ← sync_interfaces feed (record w { base_mtu = read_base_mtu feed.subsystems (pos 0) })
    finish_round stack feed (collect_rows w.rows []) w')

  unfoldable pub system_is_configured : Feed → World → Bool
  system_is_configured feed w =
      w.system_configured
      || elim feed.cur_cfg [ none ↦ false | some cur_cfg ↦ ltbℤ (pos 0) cur_cfg ]

  -- One round. Without a commit the client drops what was written to the rows.
  unfoldable pub intfd_run : IntfUserCfg → Feed → World → Option World
  unfolding system_is_configured intfd_reconfigure
  intfd_run stack feed w =
      if feed.lock_contended || not feed.has_lock
      then some w
      else if not (system_is_configured feed w)
      then some w
      else (do
        (commits, w') ← intfd_reconfigure stack feed (record w { system_configured = true })
        some (if commits then w' else record w' { rows = w.rows }))
