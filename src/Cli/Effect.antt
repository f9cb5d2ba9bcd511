-- ===== src/Cli/Effect.antt =====
-- What a command of src/cli/intf_vty.c may change: nothing, or one column of one row; and that it
-- comes to an end if the interface is there.
use ops_intfd.Prelude.{
  ℕ, ◌≡◌, refl, Bool, true, false, ◌||◌, Option, some, [], ◌∷◌, ◌⊎◌, inl, inr, Bool-cases,
  Option-cases, OnSome, OnSome-if,
}
use ops_intfd.CString.{CString, strcmp_is_zero}
use ops_intfd.Smap.{Smap}
use ops_intfd.Database.{Ifrow}
use ops_intfd.Daemon.{Rows}
use ops_intfd.Cli.{
  Session, CmdResult, cmd_success, Edited, missing, refused, edited, keep_row, edit_row,
  finish_edit, config_command,
}

-- The second list of rows is the first, but that the first row of the name has another column
-- user_config, which is related to the row.
pub data OneEdited (R : Ifrow → Smap → Type 0) (name : CString) : Rows → Rows → Type 0 where
  here :
      (r : ℕ) (row : Ifrow) (config : Smap) (rows : Rows)
      → strcmp_is_zero row.name name ≡ true
      → R row config
      → OneEdited R name ((r, row) ∷ rows) ((r, record row { user_config = config }) ∷ rows)
  there :
      (r : ℕ) (row : Ifrow) (rows rows' : Rows)
      → strcmp_is_zero row.name name ≡ false
      → OneEdited R name rows rows'
      → OneEdited R name ((r, row) ∷ rows) ((r, row) ∷ rows')

module _ (R : Ifrow → Smap → Type 0) where
  -- What the loop over the rows may come to.
  abbrev IsOutcome : CString → Rows → Edited → Type 0
  IsOutcome name rows missing = Unit
  IsOutcome name rows refused = Unit
  IsOutcome name rows (edited rows') = OneEdited R name rows rows'

  -- What a command may answer, with the rows afterwards.
  abbrev pub IsAnswer : Session → Rows → CmdResult × Rows → Type 0
  IsAnswer s rows (result, rows') =
      (rows' ≡ rows)
      ⊎ ((result ≡ cmd_success) × (s.commits ≡ true) × OneEdited R s.index rows rows')

module _ (R : Ifrow → Smap → Type 0) (edit : Ifrow → Option Smap)
    (sound : (row : Ifrow) (config : Smap) → edit row ≡ some config → R row config) where
  keep_row-IsOutcome :
      (name : CString) (r : ℕ) (row : Ifrow) (rows : Rows) (outcome : Edited)
      → strcmp_is_zero row.name name ≡ false
      → IsOutcome R name rows outcome
      → IsOutcome R name ((r, row) ∷ rows) (keep_row (r, row) outcome)
  keep_row-IsOutcome name r row rows missing e h = tt
  keep_row-IsOutcome name r row rows refused e h = tt
  keep_row-IsOutcome name r row rows (edited rows') e h = OneEdited.there r row rows rows' e h

  edit_row-IsOutcome :
      (name : CString) (rows : Rows) → IsOutcome R name rows (edit_row edit name rows)
  unfolding edit_row
  edit_row-IsOutcome name [] = tt
  edit_row-IsOutcome name ((r, row) ∷ rows) = elim (Bool-cases (strcmp_is_zero row.name name)) [
    | inl e ↦ elim (Option-cases (edit row)) [
      | inl n ↦ rw (edit_row, e, n) tt
      | inr (config, c) ↦
          rw (edit_row, e, c) (OneEdited.here r row config rows e (sound row config c))
    ]
    | inr e ↦
        rw (edit_row, e)
          (keep_row-IsOutcome name r row rows (edit_row edit name rows) e
            (edit_row-IsOutcome name rows))
  ]

  finish_edit-IsAnswer :
      (always : Bool) (s : Session) (rows : Rows) (outcome : Edited)
      → IsOutcome R s.index rows outcome
      → OnSome (IsAnswer R s rows) (finish_edit always s rows outcome)
  unfolding finish_edit
  finish_edit-IsAnswer always s rows missing h = OnSome-if _ (always || s.commits) _ _ tt (inl refl)
  finish_edit-IsAnswer always s rows refused h = inl refl
  finish_edit-IsAnswer always s rows (edited rows') h = elim (Bool-cases s.commits) [
    | inl e ↦ rw e (inr (refl, refl, h))
    | inr e ↦ rw e (inl refl)
  ]

  pub config_command-IsAnswer :
      (always : Bool) (s : Session) (rows : Rows)
      → OnSome (IsAnswer R s rows) (config_command always s edit rows)
  unfolding config_command
  config_command-IsAnswer always s [] = inl refl
  config_command-IsAnswer always s (e ∷ rows) =
      OnSome-if _ s.starts _ _
        (finish_edit-IsAnswer always s (e ∷ rows) (edit_row edit s.index (e ∷ rows))
          (edit_row-IsOutcome s.index (e ∷ rows)))
        (inl refl)
