-- ===== src/Cli/Faults.antt =====
-- When a command of src/cli/intf_vty.c destroys a map that was never initialised.
use ops_intfd.Prelude.{
  ℕ, ◌≡◌, refl, Bool, true, false, ◌&&◌, ◌||◌, not, Option, [], ◌∷◌, Bool-cases, Option-cases, inl,
  inr, is_some, arith,
}
use ops_intfd.CString.{CString, strcmp_is_zero}
use ops_intfd.Smap.{Smap}
use ops_intfd.Schema.{Idl}
use ops_intfd.Database.{Ifrow}
use ops_intfd.Daemon.{Rows}
use ops_intfd.Daemon.Sync.{has_name}
use ops_intfd.Cli.{
  Session, Edited, missing, refused, edited, keep_row, edit_row, finish_edit, config_command,
}
use ops_intfd.Cli.Commands.{
  accepts_mtu, cli_intf_speed, cli_intf_mtu, cli_intf_duplex, cli_intf_autoneg,
  cli_intf_flowcontrol,
}
use ops_intfd.Cli.OnlyKey.{Command, speed, mtu, duplex, autonegotiation, flowcontrol, run_command}

abbrev is_found : Edited → Bool
is_found missing = false
is_found refused = true
is_found (edited rows) = true

found_kept : (e : ℕ × Ifrow) (outcome : Edited) → is_found (keep_row e outcome) ≡ is_found outcome
found_kept e missing = refl
found_kept e refused = refl
found_kept e (edited rows) = refl

edit_row-is_found :
    (edit : Ifrow → Option Smap) (name : CString) (rows : Rows)
    → is_found (edit_row edit name rows) ≡ has_name rows name
unfolding edit_row has_name
edit_row-is_found edit name [] = refl
edit_row-is_found edit name ((r, row) ∷ rows) = elim (Bool-cases (strcmp_is_zero row.name name)) [
  | inl e ↦ elim (Option-cases (edit row)) [
    | inl n ↦ rw (edit_row, has_name, e, n) refl
    | inr (config, c) ↦ rw (edit_row, has_name, e, c) refl
  ]
  | inr e ↦
      rw (edit_row, has_name, e, found_kept (r, row) (edit_row edit name rows))
        (edit_row-is_found edit name rows)
]

-- There are rows, and none of them has the name.
abbrev pub is_unknown : Rows → CString → Bool
is_unknown [] name = false
is_unknown (e ∷ rows) name = not (has_name (e ∷ rows) name)

finish_edit-is_some :
    (always : Bool) (s : Session) (rows : Rows) (outcome : Edited)
    → is_some (finish_edit always s rows outcome) ≡ (is_found outcome || not (always || s.commits))
unfolding finish_edit
finish_edit-is_some always s rows missing = ground arith
finish_edit-is_some always s rows refused = refl
finish_edit-is_some always s rows (edited rows') = refl

config_command-is_some :
    (always : Bool) (s : Session) (edit : Ifrow → Option Smap) (rows : Rows)
    → is_some (config_command always s edit rows)
      ≡ not (s.starts && is_unknown rows s.index && (always || s.commits))
unfolding config_command has_name
config_command-is_some always s edit [] = ground arith
config_command-is_some always s edit (e ∷ rows) = ground (
  arith,
  edit_row-is_found edit s.index (e ∷ rows),
  finish_edit-is_some always s (e ∷ rows) (edit_row edit s.index (e ∷ rows)),
)

-- The command comes to the end of the transaction, and calls smap_destroy there.
abbrev pub destroys : Command → Session → Bool
destroys (mtu arg) s = (s.no_cmd || accepts_mtu arg) && s.commits
destroys _ s = true

module _ ⦃idl : Idl⦄ where
  -- A command faults exactly if the transaction starts, the table has rows, but none with the name of
  -- the context; for mtu also the argument has to be accepted and the commit to succeed.
  pub run_command-is_some :
      (c : Command) (s : Session) (rows : Rows)
      → is_some (run_command c s rows) ≡ not (s.starts && is_unknown rows s.index && destroys c s)
  unfolding cli_intf_speed cli_intf_mtu cli_intf_duplex cli_intf_autoneg cli_intf_flowcontrol
  run_command-is_some (speed arg) s rows = config_command-is_some true s _ rows
  run_command-is_some (mtu arg) s rows = elim (Bool-cases (not s.no_cmd && not (accepts_mtu arg))) [
    | inl e ↦ rw (cli_intf_mtu, e) (ground arith)
    | inr e ↦ rw (cli_intf_mtu, e, config_command-is_some false s _ rows) (ground arith)
  ]
  run_command-is_some (duplex arg) s rows = config_command-is_some true s _ rows
  run_command-is_some (autonegotiation arg) s rows = config_command-is_some true s _ rows
  run_command-is_some (flowcontrol direction state) s rows = config_command-is_some true s _ rows
