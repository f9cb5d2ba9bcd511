-- ===== src/Show/Running/Filter.antt =====
-- The argument of show running-config interface, in cli_show_run_interface_exec of src/cli/intf_vty.c.
use ops_intfd.Prelude.{
  Bool, true, false, Option, none, some, if◌then◌else◌, List, [], ◌∷◌, ◌++◌, ◌≡◌, refl, ap, ◌∙◌,
  inl, inr, Bool-cases, Option-cases,
}
use mathlib.Core.List.{append_assoc}
use ops_intfd.CString.{CString, bytes, strcmp_is_zero}
use ops_intfd.Schema.{Idl, UserConfigKey, UserPause}
use ops_intfd.Cli.OnlyKey.{Command}
use ops_intfd.Show.{
  Line, exit, setting, Tables, ShowRow, Host, Out, blank_out, print_header, holds_other,
}
use ops_intfd.Show.Context.{value_of}
use ops_intfd.Show.Running.{
  lines_of, finish_row, show_run_settings, show_run_pause, show_run_rest, show_run_row,
}
use ops_intfd.Show.Running.Rest.{show_run_rest-Extends}

-- A part of the lines: all of them, or, if it is cut, a part whose last lines are `flow` and which is
-- followed by others and by exit.
abbrev pub IsPart : Bool → List Line → List Line → List Line → Type 0
IsPart false flow full part = part ≡ full
IsPart true flow full part =
    (before : List Line) × (rest : List Line) × (part ≡ before ++ flow)
    × (full ≡ part ++ (rest ++ exit ∷ []))

module _ ⦃idl : Idl⦄ ⦃host : Host⦄ where
  open idl use {user_pause_name}

  -- A value of flow control is shown for the row.
  abbrev pub shows_pause : ShowRow → Bool
  shows_pause r =
      holds_other (value_of r.row UserConfigKey.pause) (user_pause_name UserPause.no_pause)

  abbrev on_line : CString → Line
  on_line direction = setting (Command.flowcontrol direction (bytes "on"))

  -- The commands that set a value of flow control.
  abbrev pub pause_lines : CString → List Line
  pause_lines value =
      if strcmp_is_zero value (user_pause_name UserPause.rx)
      then on_line (bytes "receive") ∷ []
      else if strcmp_is_zero value (user_pause_name UserPause.tx)
      then on_line (bytes "send") ∷ []
      else on_line (bytes "receive") ∷ on_line (bytes "send") ∷ []

  abbrev pub flow_lines : Option CString → List Line
  flow_lines none = []
  flow_lines (some value) = pause_lines value

  pause-lines :
      (name value : CString) (out : Out)
      → (show_run_pause name value out).lines ≡ (print_header name out).lines ++ pause_lines value
  unfolding show_run_pause
  pause-lines name value out =
      elim (Bool-cases (strcmp_is_zero value (user_pause_name UserPause.rx))) [
        | inl e ↦ rw e refl
        | inr e ↦ elim (Bool-cases (strcmp_is_zero value (user_pause_name UserPause.tx))) [
          | inl f ↦ rw (e, f) refl
          | inr f ↦
              rw (e, f)
                (append_assoc (print_header name out).lines (on_line (bytes "receive") ∷ [])
                  (on_line (bytes "send") ∷ []))
        ]
      ]

  finish-lines : (out : Out) → lines_of (finish_row true out) ≡ lines_of (finish_row false out)
  finish-lines out = elim (Bool-cases out.printed) [ inl e ↦ rw e refl | inr e ↦ rw e refl ]

  finish_printed :
      (out : Out) → out.printed ≡ true → lines_of (finish_row false out) ≡ out.lines ++ exit ∷ []
  finish_printed out e = rw e refl

  header_printed : (name : CString) (out : Out) → (print_header name out).printed ≡ true
  unfolding print_header
  header_printed name out = elim (Bool-cases out.printed) [ inl e ↦ rw e refl | inr e ↦ rw e refl ]

  pause_printed :
      (name value : CString) (out : Out) → (show_run_pause name value out).printed ≡ true
  unfolding show_run_pause
  pause_printed name value out =
      elim (Bool-cases (strcmp_is_zero value (user_pause_name UserPause.rx))) [
        | inl e ↦ rw e (header_printed name out)
        | inr e ↦ elim (Bool-cases (strcmp_is_zero value (user_pause_name UserPause.tx))) [
          | inl f ↦ rw (e, f) (header_printed name out)
          | inr f ↦ rw (e, f) (header_printed name out)
        ]
      ]

  -- Without an argument the lines of a row are those with its name as the argument, where no value
  -- of flow control is shown for it. Where one is, the lines with the argument stop after the lines
  -- that set that value, and those without go on, with exit as the last.
  pub show_run_row-IsPart :
      (tables : Tables) (r : ShowRow)
      → IsPart
          (shows_pause r)
          (flow_lines (value_of r.row UserConfigKey.pause))
          (lines_of (show_run_row tables false r))
          (lines_of (show_run_row tables true r))
  unfolding show_run_row
  show_run_row-IsPart tables r =
      let out = show_run_settings tables r blank_out in
      elim (Option-cases (value_of r.row UserConfigKey.pause)) [
        | inl n ↦ rw (show_run_row, n) (finish-lines (show_run_rest tables r out))
        | inr (value, s) ↦
            elim (Bool-cases (strcmp_is_zero value (user_pause_name UserPause.no_pause))) [
              | inl e ↦ rw (show_run_row, s, e) (finish-lines (show_run_rest tables r out))
              | inr e ↦
                  let shown = show_run_pause r.row.name value out in
                  let extends = show_run_rest-Extends tables r shown in
                  rw (show_run_row, s, e)
                    (
                      (print_header r.row.name out).lines,
                      extends.more,
                      pause-lines r.row.name value out,
                      finish_printed (show_run_rest tables r shown)
                            (extends.stays (pause_printed r.row.name value out))
                          ∙ ap (λ xs. xs ++ exit ∷ []) extends.lines_eq
                          ∙ append_assoc shown.lines extends.more (exit ∷ []),
                    )
            ]
      ]
