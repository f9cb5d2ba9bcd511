-- ===== src/Snmp/Laws.antt =====
-- The accessors of src/snmp/ifmib/IF_MIB_custom.c agree with each other: the halves of a 64-bit
-- counter with the plain counter, and the two objects of the link's speed.
use native.Mathlib.Nat.{mod-lt, mod-eq_of_lt}
use Prim.Native.Nat.{min, bit_and-bitwise}
use mathlib.Core.Option.{map}
use ops_intfd.Prelude.{
  ℕ, zero, suc, ◌+◌, ◌*◌, ◌/◌, ◌%◌, ◌^◌, ◌≤◌, ◌<◌, ℤ, pos, negsuc, true, false, ◌≡◌, refl, Bool, ap,
  ◌∙◌, bit_and, Option, none, some, List, [], ◌∷◌, ◌==◌, if◌then◌else◌, arith, get_or,
}
use ops_intfd.CString.{CString}
use ops_intfd.Schema.{Idl}
use ops_intfd.Snmp.{SnmpRow, Datum, unsigned}
use ops_intfd.Snmp.Masks.{low_mask, high_mask}
use ops_intfd.Snmp.Speeds.{
  gauge_max, million, clamp, per_million, link_is_up, if_speed, if_high_speed,
}
use ops_intfd.Snmp.Counters.{
  U64, split, low_half, high_half, no_count, read_value, value_at, if_in_octets, if_in_ucast_pkts,
  if_out_octets, if_out_ucast_pkts, if_hc_in_octets, if_hc_in_ucast_pkts, if_hc_out_octets,
  if_hc_out_ucast_pkts, interface_statistics_keys, uint_max,
}

-- Both halves are 32 bits wide, and together they are the count.
pub record IsSplitOf (n : ℕ) (u : U64) : Type 0 where
  pub high_bound : u.high < 2 ^ 32
  pub low_bound : u.low < 2 ^ 32
  pub whole : u.high * 2 ^ 32 + u.low ≡ n

unsigned_bound : (v : ℤ) → unsigned v < 2 ^ 64
unsigned_bound (pos n) = mod-lt n (omega arith)
unsigned_bound (negsuc n) = omega arith

and_low : (a : ℕ) → bit_and a low_half ≡ a % 2 ^ 32
and_low a = ap (λ x. x) (bit_and-bitwise a low_half) ∙ low_mask 32 a a (omega arith)

and_high : (a : ℕ) → bit_and a high_half ≡ (a / 2 ^ 32 % 2 ^ 32) * 2 ^ 32
and_high a = ap (λ x. x) (bit_and-bitwise a high_half) ∙ high_mask 32 32 a a (omega arith)

high_lem : (a : ℕ) → a < 2 ^ 64 → (a / 2 ^ 32 % 2 ^ 32) * 2 ^ 32 / 2 ^ 32 ≡ a / 2 ^ 32
high_lem a h = omega (arith, h)

split-IsSplitOf : (v : ℤ) → IsSplitOf (unsigned v) (split v)
unfolding split
split-IsSplitOf v =
    let a = unsigned v in
    let below = unsigned_bound v in
    let high : bit_and a high_half / 2 ^ 32 ≡ a / 2 ^ 32 =
      ap (λ x. x / 2 ^ 32) (and_high a) ∙ high_lem a below in
    let low = and_low a in
    record {
      high_bound = omega (arith, high, below);
      low_bound = omega (arith, low);
      whole = omega (arith, high, low);
    }

-- The results of the two counters: both a fault, or a count and its halves.
pub data Splits : Option U64 → Option ℕ → Type 0 where
  fault : Splits none none
  value : {u : U64} {n : ℕ} → IsSplitOf n u → Splits (some u) (some n)

no_count-IsSplitOf : IsSplitOf 0 no_count
no_count-IsSplitOf = record { high_bound = omega arith; low_bound = omega arith; whole = refl }

value_at-Splits :
    (vs : List ℤ) (i : ℕ) → Splits (map split (value_at vs i)) (map unsigned (value_at vs i))
value_at-Splits [] i = fault
value_at-Splits (v ∷ vs) zero = value (split-IsSplitOf v)
value_at-Splits (v ∷ vs) (suc i) = value_at-Splits vs i

module _ (find_key : List CString → CString → ℕ) where
  read_value-Splits :
      (statistics : Option Datum) (i : ℕ)
      → Splits
          (read_value find_key no_count split statistics i)
          (read_value find_key 0 unsigned statistics i)
  read_value-Splits none i = value no_count-IsSplitOf
  read_value-Splits (some datum) i =
      let index = find_key datum.keys (get_or interface_statistics_keys i []) in
      splits_if (index == uint_max) (value_at-Splits datum.values index)
    where
      splits_if :
          {u : Option U64} {n : Option ℕ} (missing : Bool)
          → Splits u n
          → Splits (if missing then some no_count else u) (if missing then some 0 else n)
      splits_if true h = value no_count-IsSplitOf
      splits_if false h = h

  -- On every row, whatever the search for a key gives, each of the four 64-bit counters faults
  -- where the plain counter of the same key does, and otherwise its high and low words are 32 bits
  -- wide and make up that counter.
  pub if_hc_in_octets-Splits :
      (row : SnmpRow)
      → Splits (if_hc_in_octets find_key row) (if_in_octets find_key row)
        × Splits (if_hc_in_ucast_pkts find_key row) (if_in_ucast_pkts find_key row)
        × Splits (if_hc_out_octets find_key row) (if_out_octets find_key row)
        × Splits (if_hc_out_ucast_pkts find_key row) (if_out_ucast_pkts find_key row)
  unfolding if_hc_in_octets if_hc_in_ucast_pkts if_hc_out_octets if_hc_out_ucast_pkts if_in_octets
      if_in_ucast_pkts if_out_octets if_out_ucast_pkts
  if_hc_in_octets-Splits row =
      let splits = read_value-Splits row.statistics in (splits 1, splits 0, splits 3, splits 2)

clamp_pos : (v : ℕ) → v < 2 ^ 63 → clamp (pos v) ≡ min v gauge_max
clamp_pos v h = ground arith

per_million_pos : (v : ℕ) → v < 2 ^ 63 → unsigned (per_million (pos v)) ≡ v / million
per_million_pos v h = mod-eq_of_lt (omega (arith, h))

module _ ⦃idl : Idl⦄ where
  -- On a row whose link is up, with a link speed of v bits per second that is not negative and
  -- fits 63 bits: ifSpeed is v, or the largest 32-bit value where v is above it, and ifHighSpeed
  -- is v in whole millions, rounded down.
  pub if_speed-if_high_speed :
      (row : SnmpRow) (v : ℕ) (speeds : List ℤ)
      → link_is_up row ≡ true
      → row.link_speed ≡ some (pos v ∷ speeds)
      → v < 2 ^ 63
      → (if_speed row ≡ min v gauge_max)
        × (if_high_speed row * million ≤ v)
        × (v < (if_high_speed row + 1) * million)
  unfolding if_speed if_high_speed
  if_speed-if_high_speed row v speeds up speed bound =
      rw (up, speed, clamp_pos v bound, per_million_pos v bound) (refl, omega arith, omega arith)
