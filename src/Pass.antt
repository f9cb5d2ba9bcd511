-- ===== src/Pass.antt =====
-- intfd_arbiter_run of src/intfd_ovsdb_if.c: the arbiter over every row of the Interface table.
pub mod Columns
mod Tests
use ops_intfd.Prelude.{
  Bool, true, false, ◌||◌, not, Option, some, ◌>>=◌, List, [], ◌∷◌, if◌then◌else◌,
}
use ops_intfd.Smap.{Smap, smap_equal}
use ops_intfd.Schema.{Idl}
use ops_intfd.Database.{Ifrow}
use ops_intfd.Arbiter.{LayerClass, interface_run}

module _ ⦃idl : Idl⦄ where
  -- The column is written only if the arbiter changed it.
  abbrev pub write_column : Ifrow → Smap → Ifrow
  write_column row m =
      if not (smap_equal m row.forwarding_state) then record row { forwarding_state = m } else row

  -- Whether a column was written, the layers and the rows afterwards; `none` is a fault.
  unfoldable pub arbiter_run :
      List LayerClass → List Ifrow → Option (Bool × List LayerClass × List Ifrow)
  arbiter_run layers [] = some (false, layers, [])
  arbiter_run layers (row ∷ rows) = do
    (left, m) ← interface_run layers row row.forwarding_state
    (rc, last, done) ← arbiter_run left rows
    some (not (smap_equal m row.forwarding_state) || rc, last, write_column row m ∷ done)
