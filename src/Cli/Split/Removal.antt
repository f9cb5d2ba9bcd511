-- ===== src/Cli/Split/Removal.antt =====
-- What the command split of src/cli/intf_vty.c may do to the tables.
use ops_intfd.Prelude.{
  ℕ, true, false, ◌||◌, not, Option, none, some, List, [], ◌∷◌, ◌≡◌, refl, subst, ◌⊎◌, inl, inr,
  Bool-cases, Option-cases, OnSome, arith,
}
use ops_intfd.CString.{CString, strcmp_is_zero}
use ops_intfd.CString.Equality.{strcmp_iff}
use ops_intfd.Smap.{Smap, smap_replace}
use ops_intfd.Schema.{Idl, UserConfigKey, LaneSplit}
use ops_intfd.Database.{Ifrow}
use ops_intfd.Daemon.{put_row}
use ops_intfd.Cli.{CmdResult, cmd_success, Session}
use ops_intfd.Cli.Split.{Db, Utils, remove_port_and_references}
use ops_intfd.Cli.Split.Command.{
  handle_port_config, store_config, is_splittable, read_answer, find_row, split_row, finish_split,
  cli_intf_split, is_empty,
}
use ops_intfd.Cli.Split.Ports.{
  IsGone, remove_port_and_references-IsGone, remove_port_and_references-rows,
}

module _ ⦃idl : Idl⦄ where
  abbrev pub split_config : Smap → Smap
  split_config config =
      smap_replace config (idl.user_config_key UserConfigKey.lane_split)
        (idl.lane_split_name LaneSplit.split)

  -- The first row of the name has the key lane_split set to split; that is all the change of the
  -- Interface table.
  abbrev pub HasSplit : CString → Db → Db → Type 0
  HasSplit name db db' =
      (r : ℕ) × (row : Ifrow) × (find_row name db.rows ≡ some (r, row))
      × (db'.rows ≡ put_row db.rows r (record row { user_config = split_config row.user_config }))

module _ ⦃idl : Idl⦄ (utils : Utils) where
  -- What the command may answer to a "split", with the tables afterwards.
  abbrev pub IsAnswer : Session → List ℕ → Db → CmdResult × Db → Type 0
  IsAnswer s answers db (result, db') =
      (db' ≡ db)
      ⊎ ((result ≡ cmd_success)
          × (s.commits ≡ true)
          × (read_answer answers ≡ some true)
          × IsGone s.index db'.ports
          × HasSplit s.index db db')

  find_row-name :
      (name : CString) (rows : List (ℕ × Ifrow)) (r : ℕ) (row : Ifrow)
      → find_row name rows ≡ some (r, row)
      → row.name ≡ name
  unfolding find_row
  find_row-name name [] r row h = absurd (cc h)
  find_row-name name ((q, first) ∷ rows) r row h =
      elim (Bool-cases (strcmp_is_zero first.name name)) [
        | inl e ↦ ground (arith, strcmp_iff first.name name)
        | inr e ↦ find_row-name name rows r row (ground arith)
      ]

  -- What the loop over the rows may come to.
  abbrev IsOutcome : List ℕ → CString → ℕ → Ifrow → Db → Option Db → Type 0
  IsOutcome answers name r row db none = Unit
  IsOutcome answers name r row db (some db') =
      (read_answer answers ≡ some true)
      × IsGone name db'.ports
      × (db'.rows ≡ put_row db.rows r (record row { user_config = split_config row.user_config }))

  removed :
      (answers : List ℕ) (name : CString) (r : ℕ) (row : Ifrow) (db : Db) (o : Option Db)
      → read_answer answers ≡ some true
      → OnSome (λ (d : Db). IsGone name d.ports) o
      → OnSome
          (λ (d : Db).
            d.rows ≡ put_row db.rows r (record row { user_config = split_config row.user_config }))
          o
      → OnSome (IsOutcome answers name r row db) (elim o [ none ↦ none | some d ↦ some (some d) ])
  removed answers name r row db none a h k = tt
  removed answers name r row db (some d) a h k = (a, h, k)

  split_row-IsOutcome :
      (s : Session) (answers : List ℕ) (r : ℕ) (row : Ifrow) (db : Db)
      → s.no_cmd ≡ false
      → OnSome (IsOutcome answers row.name r row db) (split_row utils s answers r row db)
  unfolding split_row handle_port_config
  split_row-IsOutcome s answers r row db yes_cmd = elim (Bool-cases (is_splittable utils row)) [
    | inl e ↦ elim (Option-cases (read_answer answers)) [
      | inl n ↦ rw (split_row, e, n) tt
      | inr (true, a) ↦
          let d' = store_config r row (split_config row.user_config) db in
          rw (split_row, e, a, yes_cmd)
            (removed answers row.name r row db (remove_port_and_references utils row.name d') a
              (remove_port_and_references-IsGone utils row.name d')
              (remove_port_and_references-rows utils row.name d'))
      | inr (false, a) ↦ rw (split_row, e, a) tt
    ]
    | inr e ↦ rw (split_row, e) tt
  ]

  finish-IsAnswer :
      (s : Session) (answers : List ℕ) (r : ℕ) (row : Ifrow) (db : Db) (outcome : Option Db)
      → find_row s.index db.rows ≡ some (r, row)
      → IsOutcome answers s.index r row db outcome
      → IsAnswer s answers db (finish_split s db outcome)
  finish-IsAnswer s answers r row db none f h = inl refl
  finish-IsAnswer s answers r row db (some db') f (a, gone, same) = elim (Bool-cases s.commits) [
    | inl e ↦ rw e (inr (refl, refl, a, gone, (r, row, f, same)))
    | inr e ↦ rw e (inl refl)
  ]

  finished :
      (s : Session) (answers : List ℕ) (r : ℕ) (row : Ifrow) (db : Db) (o : Option (Option Db))
      → find_row s.index db.rows ≡ some (r, row)
      → OnSome (IsOutcome answers s.index r row db) o
      → OnSome
          (IsAnswer s answers db)
          (elim o [ none ↦ none | some outcome ↦ some (finish_split s db outcome) ])
  finished s answers r row db none f h = tt
  finished s answers r row db (some outcome) f h = finish-IsAnswer s answers r row db outcome f h

  pub cli_intf_split-IsAnswer :
      (s : Session) (answers : List ℕ) (db : Db)
      → s.no_cmd ≡ false
      → OnSome (IsAnswer s answers db) (cli_intf_split utils answers s db)
  unfolding cli_intf_split
  cli_intf_split-IsAnswer s answers db yes_cmd =
      elim (Bool-cases (not s.starts || is_empty db.rows)) [
        | inl e ↦ rw (cli_intf_split, e) (inl refl)
        | inr e ↦ elim (Option-cases (find_row s.index db.rows)) [
          | inl n ↦ rw (cli_intf_split, e, n) (inl refl)
          | inr ((r, row), f) ↦
              rw (cli_intf_split, e, f)
                (finished s answers r row db (split_row utils s answers r row db) f (
                  subst
                    (λ name.
                      OnSome (IsOutcome answers name r row db) (split_row utils s answers r row db))
                    (find_row-name s.index db.rows r row f)
                    (split_row-IsOutcome s answers r row db yes_cmd)))
        ]
      ]
