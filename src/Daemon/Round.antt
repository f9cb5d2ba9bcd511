-- ===== src/Daemon/Round.antt =====
-- intfd_run of src/intfd_ovsdb_if.c over any number of rounds: when it acts, and what is true of the
-- cache of the interfaces.
use ops_intfd.Prelude.{
  ℕ, pos, ◌≡◌, refl, ap, ◌∙◌, Bool, true, false, ◌||◌, ◌&&◌, not, inl, inr, Bool-cases, none, some,
  [], ◌==◌, if◌then◌else◌, is_some, OnSome, OnSome-bind, OnSome-map, OnSome-some, OnSome-if, arith,
}
use ops_intfd.Schema.{Idl}
use ops_intfd.Interface.{IntfUserCfg}
use ops_intfd.Daemon.{Shash, shash_find, Rows, Feed, World}
use ops_intfd.Daemon.PortChanges.{port_reconfigure}
use ops_intfd.Daemon.Interfaces.{collect_rows}
use ops_intfd.Daemon.InterfaceChanges.{handle_interfaces_config_mods}
use ops_intfd.Daemon.Run.{
  sync_interfaces, finish_round, run_arbiter, intfd_reconfigure, intfd_run, system_is_configured,
  read_base_mtu,
}
use ops_intfd.Daemon.Frame.{IsFramed, Framed, Framed-bind, after}
use ops_intfd.Daemon.Frame.Ports.{port_reconfigure-Framed}
use ops_intfd.Daemon.Frame.Interfaces.{handle_interfaces_config_mods-Framed, run_arbiter-Framed}
use ops_intfd.Daemon.Maps.{has_address}
use ops_intfd.Daemon.Cache.{IsWellFormed, IsFramed-IsWellFormed}
use ops_intfd.Daemon.Sync.{IsTable, IsSynced, sync_interfaces-IsSynced}

module _ ⦃idl : Idl⦄ where
  IsFramed-IsSynced :
      (rows : Rows) (w w' : World)
      → IsFramed w w'
      → IsWellFormed w × IsSynced rows w
      → IsWellFormed w' × IsSynced rows w'
  IsFramed-IsSynced rows w w' framed (ok, synced) = (
    IsFramed-IsWellFormed w w' framed ok,
    λ key. ap (λ c. is_some (shash_find c key)) framed.0 ∙ synced key,
  )

  -- The three parts after the cache has been made that of the table.
  finish_round-Framed :
      (stack : IntfUserCfg) (feed : Feed) (present : Shash ℕ) (w : World)
      → Framed after w (finish_round stack feed present w)
  unfolding finish_round
  finish_round-Framed stack feed present w =
      Framed-bind after after w (port_reconfigure feed w) _ (port_reconfigure-Framed feed w)
        λ (rc1, w1).
          Framed-bind after after w1 (handle_interfaces_config_mods stack feed.ports present w1) _
            (handle_interfaces_config_mods-Framed stack feed.ports present w1)
            λ (rc2, w2).
              Framed-bind after after w2 (run_arbiter w2) _ (run_arbiter-Framed w2)
                λ (rc3, w3). (refl, refl, λ a. refl)

  -- From a well-formed memory, where the rows have different numbers: if the database has changed,
  -- then unless it faults the round leaves a well-formed memory whose cache has exactly the names of
  -- the table.
  pub intfd_reconfigure-IsSynced :
      (stack : IntfUserCfg) (feed : Feed) (w : World)
      → IsTable w.rows
      → IsWellFormed w
      → (feed.seqno == w.idl_seqno) ≡ false
      → OnSome
          (λ (r : Bool × World). IsWellFormed (after r) × IsSynced w.rows (after r))
          (intfd_reconfigure stack feed w)
  unfolding intfd_reconfigure
  intfd_reconfigure-IsSynced stack feed w table ok h = rw h (
      OnSome-bind _
        (sync_interfaces feed (record w { base_mtu = read_base_mtu feed.subsystems (pos 0) })) _
        λ w1 e.
          let (ok1, rows1, mtu1, synced) =
            OnSome-some _ _
              (sync_interfaces-IsSynced feed
                (record w { base_mtu = read_base_mtu feed.subsystems (pos 0) }) table ok)
              e in
          OnSome-map (finish_round stack feed (collect_rows w.rows []) w1)
            (λ (_, w2) framed. IsFramed-IsSynced w.rows w1 w2 framed (ok1, synced))
            (finish_round-Framed stack feed (collect_rows w.rows []) w1))

  -- The daemon has the lock, the switch is configured, and the database has changed.
  abbrev pub acts : Feed → World → Bool
  acts feed w =
      not feed.lock_contended
      && feed.has_lock
      && system_is_configured feed w
      && not (feed.seqno == w.idl_seqno)

  -- A daemon without the lock, or on a switch that is not configured, or whose database has not
  -- changed, does not fault and changes nothing but the mark that the switch is configured, which it
  -- does not take back.
  pub intfd_run_idle :
      (stack : IntfUserCfg) (feed : Feed) (w : World)
      → acts feed w ≡ false
      → (configured : Bool) × (intfd_run stack feed w
          ≡ some (record w { system_configured = configured }))
        × (w.system_configured ≡ true → configured ≡ true)
  unfolding intfd_run intfd_reconfigure
  intfd_run_idle stack feed w h = elim (Bool-cases (feed.lock_contended || not feed.has_lock)) [
    | inl e ↦ (w.system_configured, rw (intfd_run, e) refl, λ k. k)
    | inr e ↦ elim (Bool-cases (system_is_configured feed w)) [
      | inl c ↦
          let same : (feed.seqno == w.idl_seqno) ≡ true = ground arith in
          (true, rw (intfd_run, e, c, intfd_reconfigure, same) refl, λ k. refl)
      | inr c ↦ (w.system_configured, rw (intfd_run, e, c) refl, λ k. k)
    ]
  ]

  reconfigure-IsWellFormed :
      (stack : IntfUserCfg) (feed : Feed) (w : World)
      → IsTable w.rows
      → IsWellFormed w
      → OnSome (λ (r : Bool × World). IsWellFormed (after r)) (intfd_reconfigure stack feed w)
  unfolding intfd_reconfigure
  reconfigure-IsWellFormed stack feed w table ok = elim (Bool-cases (feed.seqno == w.idl_seqno)) [
    | inl e ↦ rw (e, intfd_reconfigure) ok
    | inr e ↦
        OnSome-map (intfd_reconfigure stack feed w) (λ r (ok', _). ok')
          (intfd_reconfigure-IsSynced stack feed w table ok e)
  ]

  run-IsWellFormed :
      (stack : IntfUserCfg) (feed : Feed) (w : World)
      → IsTable w.rows
      → IsWellFormed w
      → OnSome IsWellFormed (intfd_run stack feed w)
  unfolding intfd_run
  run-IsWellFormed stack feed w table ok =
      OnSome-if _ (feed.lock_contended || not feed.has_lock) _ _ ok (
        OnSome-if _ (not (system_is_configured feed w)) _ _ ok (
          OnSome-bind _ (intfd_reconfigure stack feed (record w { system_configured = true })) _
            λ (commits, w') e.
              let ok' : IsWellFormed w' =
                OnSome-some _ _
                  (reconfigure-IsWellFormed stack feed (record w { system_configured = true }) table
                    ok)
                  e in
              elim commits as (λ c. IsWellFormed (if c then w' else record w' { rows = w.rows })) [
                | true ↦ ok'
                | false ↦ ok'
              ]))

  -- The memories that a daemon comes to: nothing is allocated or cached at first, the client replaces
  -- the rows, and a round is one call of intfd_run on a table whose rows have different numbers.
  pub data Reachable : World → Type 0 where
    start : (w : World) → w.all_interfaces ≡ [] → ((a : ℕ) → w.heap a ≡ none) → Reachable w
    receive : (w : World) (rows : Rows) → Reachable w → Reachable (record w { rows = rows })
    round :
        (stack : IntfUserCfg) (feed : Feed) (w w' : World)
        → IsTable w.rows
        → intfd_run stack feed w ≡ some w'
        → Reachable w
        → Reachable w'

  -- In every memory that the daemon comes to, the cached interfaces have different names and
  -- different addresses, and the structures that are allocated are those of the cache: no entry is
  -- to freed memory, and none has leaked.
  pub Reachable-IsWellFormed : (w : World) → Reachable w → IsWellFormed w
  unfolding has_address
  Reachable-IsWellFormed _ (start w cache heap) =
      (rw cache tt, λ a. rw (heap a, cache) refl, λ a h. absurd (ground (arith, cache)))
  Reachable-IsWellFormed _ (receive w rows r) = Reachable-IsWellFormed w r
  Reachable-IsWellFormed _ (round stack feed w w' table e r) =
      OnSome-some IsWellFormed _ (run-IsWellFormed stack feed w table (Reachable-IsWellFormed w r))
        e
