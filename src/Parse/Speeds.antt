-- ===== src/Parse/Speeds.antt =====
-- The numbers in the columns: parse_speeds of src/intfd_ovsdb_if.c, and the checks of the user's
-- speeds and MTU in intfd_parse_user_cfg.
pub mod Bounds
pub mod Supported
use ops_intfd.Prelude.{
  ℕ, zero, suc, ◌+◌, ℤ, pos, negsuc, ltbℤ, Bool, true, false, ◌&&◌, ◌||◌, not, Option, none, some,
  List, [], ◌∷◌, ◌>>=◌, ◌==◌, ltb, leb, if◌then◌else◌, set, replicate,
}
use ops_intfd.CString.{CString, is_a_number, strtok, atoi, atoi_bits}
use ops_intfd.Interface.{minus_one, max_speeds_allowed, min_allowed_user_specified_mtu}

-- memset(speeds, 0, sizeof(speeds))
abbrev pub no_speeds : List ℕ
no_speeds = replicate max_speeds_allowed 0

-- The loop of parse_speeds over the tokens, from the entry `i` on: the count or -1, and the array.
unfoldable pub parse_tokens : ℕ → List CString → List ℕ → ℤ × List ℕ
parse_tokens i [] speeds = (pos i, speeds)
parse_tokens i (ptr ∷ rest) speeds =
    let more = parse_tokens (i + 1) rest (set speeds i (atoi_bits ptr)) in
    if leb max_speeds_allowed i || not (is_a_number ptr) then (minus_one, speeds) else more

unfoldable pub parse_speeds : CString → List ℕ → ℤ × List ℕ
parse_speeds speeds_str speeds = parse_tokens 0 (strtok b',' speeds_str) speeds

-- The loop over `j`: is the speed among the first `n` entries?
unfoldable pub is_supported : ℕ → ℕ → List ℕ → Bool
is_supported speed zero supported = false
is_supported speed (suc n) [] = false
is_supported speed (suc n) (s ∷ supported) = speed == s || is_supported speed n supported

-- The loop over `i`: are the first `n` speeds all supported?
unfoldable pub all_supported : ℕ → List ℕ → ℕ → List ℕ → Bool
all_supported zero speeds m supported = true
all_supported (suc n) [] m supported = true
all_supported (suc n) (s ∷ speeds) m supported =
    is_supported s m supported && all_supported n speeds m supported

-- The count of the user's speeds after the comparison with those of the hardware.
unfoldable pub check_supported : ℤ → List ℕ → ℤ × List ℕ → ℤ
check_supported (pos n) speeds (pos m, supported) =
    if leb n m && all_supported n speeds m supported then pos n else minus_one
check_supported n speeds hw = minus_one

-- The speeds of the user's configuration: `before` is what the array held. The hardware's speeds
-- are parsed from a null pointer, which faults, if that key is missing.
unfoldable pub parse_user_speeds : List ℕ → Option CString → Option CString → Option (ℤ × List ℕ)
parse_user_speeds before none hw_info_speeds = some (pos 0, before)
parse_user_speeds before (some str) hw_info_speeds =
    let (n_speeds, speeds) = parse_speeds str no_speeds in
    if ltbℤ (pos 0) n_speeds
    then elim hw_info_speeds [
      | none ↦ none
      | some hw ↦ some (check_supported n_speeds speeds (parse_speeds hw no_speeds), speeds)
    ]
    else some (n_speeds, speeds)

-- The MTU of the user's configuration, against that of the subsystem.
unfoldable pub parse_user_mtu : ℤ → Option CString → ℤ
parse_user_mtu base_mtu none = pos 0
parse_user_mtu base_mtu (some str) =
    if is_a_number str
    then (if ltbℤ (atoi str) (pos min_allowed_user_specified_mtu) || ltbℤ base_mtu (atoi str)
        then minus_one
        else atoi str)
    else minus_one
