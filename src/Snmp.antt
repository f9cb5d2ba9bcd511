-- ===== src/Snmp.antt =====
-- The accessors of src/snmp/ifmib/IF_MIB_custom.c, which the agent of IF-MIB calls on a row of the
-- table Interface: which rows it shows, their index and their states. Speeds and counters are in
-- the modules below. A result `none` is a read through a null pointer, or past the end of an array.
pub mod Masks
pub mod Speeds
pub mod Counters
pub mod Rows
pub mod Laws
mod Tests
use ops_intfd.Prelude.{
  ℕ, zero, suc, ◌/◌, ◌%◌, ◌^◌, ◌-◌, ℤ, pos, negsuc, ◌==ℤ◌, Bool, true, false, ◌||◌, Option, none,
  some, List, [], ◌∷◌, ◌==◌, if◌then◌else◌,
}
use mathlib.Core.Option.{map}
use ops_intfd.CString.{CString, bytes, strncmp_is_zero, atoi}
use ops_intfd.Smap.{Smap, smap_get}
use ops_intfd.Schema.{Idl, PmInfoKey}

-- A datum of a map column: the keys and the values, index by index.
pub record Datum : Type 0 where
  pub keys : List CString
  pub values : List ℤ

-- The columns of a row that the accessors read; `none` is a null pointer.
pub record SnmpRow : Type 0 where
  pub name : CString
  pub admin_state : Option CString
  pub link_state : Option CString
  pub mtu : Option (List ℤ)
  pub link_speed : Option (List ℤ)
  pub statistics : Option Datum
  pub pm_info : Smap

-- The 64 bits of an integer of the database, as unsigned.
abbrev pub unsigned : ℤ → ℕ
unsigned (pos n) = n % 2 ^ 64
unsigned (negsuc n) = 2 ^ 64 - 1 - n % 2 ^ 64

-- strchr(s, c) != NULL, for a byte other than 0
unfoldable pub strchr : CString → ℕ → Bool
strchr [] c = false
strchr (x ∷ s) c = x == c || strchr s c

-- The byte '-'.
abbrev pub dash : ℕ
dash = b'-'

-- The row is left out of the table.
unfoldable pub if_table_skip_function : SnmpRow → Bool
unfolding strchr atoi
if_table_skip_function row =
    if strchr row.name dash then true else if atoi row.name ==ℤ pos 0 then true else false

unfoldable pub if_x_table_skip_function : SnmpRow → Bool
unfolding strchr atoi
if_x_table_skip_function row =
    if strchr row.name dash then true else if atoi row.name ==ℤ pos 0 then true else false

unfoldable pub if_index : SnmpRow → ℤ
unfolding atoi
if_index row = atoi row.name

-- The first key of a column of integers, or the default.
abbrev pub first_or : ℤ → Option (List ℤ) → ℤ
first_or d none = d
first_or d (some []) = d
first_or d (some (x ∷ xs)) = x

unfoldable if_mtu : SnmpRow → ℤ
if_mtu row = first_or (pos 0) row.mtu

-- MAX_ADMIN_STATE_LENGTH and MAX_LINK_STATE_LENGTH
abbrev pub max_state_length : ℕ
max_state_length = 8

-- The number of a state, or the old value when the state has none of the three names.
abbrev state_number : CString → CString → ℤ → CString → ℤ
state_number up down old state =
    if strncmp_is_zero state up max_state_length
    then pos 1
    else if strncmp_is_zero state down max_state_length
    then pos 2
    else if strncmp_is_zero state (bytes "testing") max_state_length
    then pos 3
    else old

module _ ⦃idl : Idl⦄ where
  open idl use {admin_state_up, admin_state_down, link_state_up, link_state_down, pm_info_key}

  -- `old` is what the result points to at the call.
  unfoldable if_admin_status : SnmpRow → ℤ → Option ℤ
  if_admin_status row old = map (state_number admin_state_up admin_state_down old) row.admin_state

  abbrev oper_status : Option CString → ℤ → ℤ
  oper_status none old = old
  oper_status (some state) old = state_number link_state_up link_state_down old state

  unfoldable if_oper_status : SnmpRow → ℤ → ℤ
  if_oper_status row old = oper_status row.link_state old

  abbrev presence : Option CString → ℤ
  presence none = pos 2
  presence (some connector) = pos 1

  unfoldable if_connector_present : SnmpRow → ℤ
  if_connector_present row = presence (smap_get row.pm_info (pm_info_key PmInfoKey.connector))

unfoldable if_link_up_down_trap_enable : SnmpRow → ℤ
if_link_up_down_trap_enable row = pos 0
