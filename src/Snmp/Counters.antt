-- ===== src/Snmp/Counters.antt =====
-- The counters of src/snmp/ifmib/IF_MIB_custom.c, of the column Interface:statistics. The search
-- for a key, ovsdb_datum_find_key of lib/ovsdb-data.c in Open vSwitch, is a parameter: the index
-- of the key, or UINT_MAX.
use ops_intfd.Prelude.{
  ℕ, zero, suc, ◌/◌, ◌-◌, ◌*◌, ◌^◌, ℤ, Option, none, some, List, [], ◌∷◌, ◌==◌, if◌then◌else◌,
  get_or, bit_and,
}
use mathlib.Core.Option.{map}
use ops_intfd.CString.{CString, bytes}
use ops_intfd.Snmp.{SnmpRow, Datum, unsigned}

-- struct counter64
pub record U64 : Type 0 where
  pub high : ℕ
  pub low : ℕ

abbrev pub interface_statistics_keys : List CString
interface_statistics_keys =
    bytes "rx_packets"
    ∷ bytes "rx_bytes"
    ∷ bytes "tx_packets"
    ∷ bytes "tx_bytes"
    ∷ bytes "rx_dropped"
    ∷ bytes "rx_frame_err"
    ∷ bytes "rx_over_err"
    ∷ bytes "rx_crc_err"
    ∷ bytes "rx_errors"
    ∷ bytes "tx_dropped"
    ∷ bytes "collisions"
    ∷ bytes "tx_errors"
    ∷ []

abbrev pub uint_max : ℕ
uint_max = 4294967295

-- datum->values[index]; past the end it is a fault.
abbrev pub value_at : List ℤ → ℕ → Option ℤ
value_at [] i = none
value_at (v ∷ vs) zero = some v
value_at (v ∷ vs) (suc i) = value_at vs i

-- 0x00000000ffffffff and 0xffffffff00000000
abbrev pub low_half : ℕ
low_half = 2 ^ 32 - 1

abbrev pub high_half : ℕ
high_half = (2 ^ 32 - 1) * 2 ^ 32

unfoldable pub split : ℤ → U64
split v = record {
  high = bit_and (unsigned v) high_half / 2 ^ 32;
  low = bit_and (unsigned v) low_half;
}

abbrev pub no_count : U64
no_count = record { high = 0; low = 0 }

-- What a counter is where the column or the key is missing, and what it makes of the value.
abbrev pub read_value {ℓ} :
    {A : Type ℓ} → (List CString → CString → ℕ) → A → (ℤ → A) → Option Datum → ℕ → Option A
read_value find_key absent make none i = some absent
read_value find_key absent make (some datum) i =
    let index = find_key datum.keys (get_or interface_statistics_keys i []) in
    if index == uint_max then some absent else map make (value_at datum.values index)

module _ (find_key : List CString → CString → ℕ) where
  -- The body that the plain counters share, at the index of the key.
  abbrev pub counter : SnmpRow → ℕ → Option ℕ
  counter row i = read_value find_key 0 unsigned row.statistics i

  unfoldable pub if_in_octets : SnmpRow → Option ℕ
  if_in_octets row = counter row 1

  unfoldable pub if_in_ucast_pkts : SnmpRow → Option ℕ
  if_in_ucast_pkts row = counter row 0

  unfoldable pub if_in_discards : SnmpRow → Option ℕ
  if_in_discards row = counter row 4

  unfoldable pub if_in_errors : SnmpRow → Option ℕ
  if_in_errors row = counter row 8

  unfoldable pub if_out_octets : SnmpRow → Option ℕ
  if_out_octets row = counter row 3

  unfoldable pub if_out_ucast_pkts : SnmpRow → Option ℕ
  if_out_ucast_pkts row = counter row 2

  unfoldable pub if_out_discards : SnmpRow → Option ℕ
  if_out_discards row = counter row 9

  unfoldable pub if_out_errors : SnmpRow → Option ℕ
  if_out_errors row = counter row 11

  -- The body that the high capacity counters share.
  abbrev pub hc_counter : SnmpRow → ℕ → Option U64
  hc_counter row i = read_value find_key no_count split row.statistics i

  unfoldable pub if_hc_in_octets : SnmpRow → Option U64
  if_hc_in_octets row = hc_counter row 1

  unfoldable pub if_hc_in_ucast_pkts : SnmpRow → Option U64
  if_hc_in_ucast_pkts row = hc_counter row 0

  unfoldable pub if_hc_out_octets : SnmpRow → Option U64
  if_hc_out_octets row = hc_counter row 3

  unfoldable pub if_hc_out_ucast_pkts : SnmpRow → Option U64
  if_hc_out_ucast_pkts row = hc_counter row 2
