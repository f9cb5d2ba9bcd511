-- ===== src/Snmp/Tests.antt =====
-- The accessors of src/snmp/ifmib/IF_MIB_custom.c on a row with a link of 40 Gbit/s.
use ops_intfd.Prelude.{
  ℕ, suc, ◌+◌, ◌*◌, ◌≤◌, ◌<◌, pos, ◌≡◌, refl, true, false, some, List, [], ◌∷◌, if◌then◌else◌,
  arith,
}
use Prim.Native.Nat.{min}
use ops_intfd.CString.{CString, bytes, strcmp_is_zero, strncmp_is_zero, print_int}
use ops_intfd.Schema.Sample.{sample}
use ops_intfd.Snmp.{SnmpRow, if_table_skip_function, if_x_table_skip_function, if_index}
use ops_intfd.Snmp.Rows.{if_index-print_int}
use ops_intfd.Snmp.Speeds.{gauge_max, million, link_is_up, if_speed, if_high_speed}
use ops_intfd.Snmp.Counters.{
  uint_max, split, if_in_octets, if_in_ucast_pkts, if_out_octets, if_out_ucast_pkts,
  if_hc_in_octets, if_hc_in_ucast_pkts, if_hc_out_octets, if_hc_out_ucast_pkts,
}
use ops_intfd.Snmp.Laws.{Splits, if_hc_in_octets-Splits, if_speed-if_high_speed}

-- The first index of the key.
index_of : ℕ → List CString → CString → ℕ
unfolding strcmp_is_zero
index_of i [] key = uint_max
index_of i (k ∷ ks) key =
    let rest = index_of (suc i) ks key in if strcmp_is_zero k key then i else rest

abbrev row : CString → SnmpRow
row name = record {
  name = name;
  admin_state = some (bytes "up");
  link_state = some (bytes "up");
  mtu = some (pos 1500 ∷ []);
  link_speed = some (pos 40000000000 ∷ []);
  statistics = some (record {
    keys = bytes "rx_bytes" ∷ bytes "tx_packets" ∷ [];
    values = pos 5000000000 ∷ pos 7 ∷ [];
  });
  pm_info = [];
}

-- A subinterface has the index of its interface.
if_index_1_10 : if_index (row (bytes "1.10")) ≡ if_index (row (bytes "1"))
unfolding if_index
if_index_1_10 = refl

if_hc_in_octets_5000000000 :
    if_hc_in_octets (index_of 0) (row (bytes "1")) ≡ some (record { high = 1; low = 705032704 })
unfolding if_hc_in_octets index_of split
if_hc_in_octets_5000000000 = refl

if_hc_in_octets-Splits_example :
    Splits
      (if_hc_in_octets (index_of 0) (row (bytes "1")))
      (if_in_octets (index_of 0) (row (bytes "1")))
    × Splits
        (if_hc_in_ucast_pkts (index_of 0) (row (bytes "1")))
        (if_in_ucast_pkts (index_of 0) (row (bytes "1")))
    × Splits
        (if_hc_out_octets (index_of 0) (row (bytes "1")))
        (if_out_octets (index_of 0) (row (bytes "1")))
    × Splits
        (if_hc_out_ucast_pkts (index_of 0) (row (bytes "1")))
        (if_out_ucast_pkts (index_of 0) (row (bytes "1")))
if_hc_in_octets-Splits_example = if_hc_in_octets-Splits (index_of 0) (row (bytes "1"))

if_speed-if_high_speed_example :
    (if_speed (row (bytes "1")) ≡ min 40000000000 gauge_max)
    × (if_high_speed (row (bytes "1")) * million ≤ 40000000000)
    × (40000000000 < (if_high_speed (row (bytes "1")) + 1) * million)
unfolding link_is_up strncmp_is_zero
if_speed-if_high_speed_example =
    if_speed-if_high_speed (row (bytes "1")) 40000000000 [] refl refl (omega arith)

if_index-print_int_example :
    (if_table_skip_function (row (bytes "49")) ≡ false)
    × (if_x_table_skip_function (row (bytes "49")) ≡ false)
    × (if_index (row (bytes "49")) ≡ pos 49)
    × (if_table_skip_function (row (bytes "49-2")) ≡ true)
    × (if_x_table_skip_function (row (bytes "49-2")) ≡ true)
unfolding print_int
if_index-print_int_example =
    if_index-print_int (row (bytes "49")) (row (bytes "49-2")) 49 (bytes "2") (omega arith)
      (omega arith) refl refl
