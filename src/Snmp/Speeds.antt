-- ===== src/Snmp/Speeds.antt =====
-- ifSpeed and ifHighSpeed of src/snmp/ifmib/IF_MIB_custom.c.
use ops_intfd.Prelude.{
  ℕ, zero, suc, ◌/◌, ℤ, pos, negsuc, Bool, false, Option, none, some, leb, if◌then◌else◌,
}
use ops_intfd.CString.{CString, strncmp_is_zero}
use ops_intfd.Schema.{Idl}
use ops_intfd.Snmp.{SnmpRow, unsigned, first_or, max_state_length}

-- The largest value of a Gauge32.
abbrev pub gauge_max : ℕ
gauge_max = 4294967295

abbrev pub million : ℕ
million = 1000000

-- The clamp of ifSpeed: a negative speed is below the bound, and is stored as unsigned.
abbrev pub clamp : ℤ → ℕ
clamp (pos n) = if leb gauge_max n then gauge_max else unsigned (pos n)
clamp (negsuc n) = unsigned (negsuc n)

-- The negation, where -0 is 0.
abbrev negate : ℕ → ℤ
negate zero = pos 0
negate (suc n) = negsuc n

-- The division of C by a million, towards 0.
abbrev pub per_million : ℤ → ℤ
per_million (pos n) = pos (n / million)
per_million (negsuc n) = negate (suc n / million)

module _ ⦃idl : Idl⦄ where
  open idl use {link_state_up}

  abbrev pub is_up : Option CString → Bool
  is_up none = false
  is_up (some state) = strncmp_is_zero state link_state_up max_state_length

  unfoldable pub link_is_up : SnmpRow → Bool
  link_is_up row = is_up row.link_state

  unfoldable pub if_speed : SnmpRow → ℕ
  unfolding link_is_up
  if_speed row = if link_is_up row then clamp (first_or (pos 0) row.link_speed) else 0

  unfoldable pub if_high_speed : SnmpRow → ℕ
  unfolding link_is_up
  if_high_speed row =
      if link_is_up row then unsigned (per_million (first_or (pos 0) row.link_speed)) else 0
