-- ===== src/Connector.antt =====
-- What a module's connector says of it: get_connector_flags and get_connector_if_type of
-- src/intfd_ovsdb_if.c, and the flags and tests of include/intfd.h.
pub mod Kinds
mod Tests
use ops_intfd.Prelude.{ℕ, Bool, true, false, ◌&&◌, not, bit_and, bit_or, ◌==◌}
use ops_intfd.Schema.{PmConnector, InterfaceType}
use ops_intfd.Schema.PmConnector.{
  qsfp28_clr4, qsfp28_cr4, qsfp28_psm4, qsfp28_cwdm4, qsfp28_lr4, qsfp28_sr4, sfp28_cr, sfp28_lr,
  sfp28_sr, qsfp_cr4, qsfp_lr4, qsfp_sr4, sfp_dac, sfp_lr, sfp_lrm, sfp_er, sfp_rj45, sfp_sr,
  sfp_sx,
}

abbrev pub pm_unsupported_flag : ℕ
pm_unsupported_flag = 0x0000

abbrev pub pm_supported_flag : ℕ
pm_supported_flag = 0x0010

abbrev pub pm_sfp_type_flag : ℕ
pm_sfp_type_flag = 0x0020

abbrev pub pm_sfp_plus_10g_flag : ℕ
pm_sfp_plus_10g_flag = 0x0040

abbrev pub pm_sfp28_25g_flag : ℕ
pm_sfp28_25g_flag = 0x0080

abbrev pub pm_qsfp_type_flag : ℕ
pm_qsfp_type_flag = 0x0100

abbrev pub pm_qsfp_plus_40g_flag : ℕ
pm_qsfp_plus_40g_flag = 0x0200

abbrev pub pm_qsfp28_100g_flag : ℕ
pm_qsfp28_100g_flag = 0x0400

abbrev pub pm_sfp_flags : ℕ
pm_sfp_flags = bit_or pm_supported_flag pm_sfp_type_flag

abbrev pub pm_sfp_plus_flags : ℕ
pm_sfp_plus_flags = bit_or (bit_or pm_supported_flag pm_sfp_type_flag) pm_sfp_plus_10g_flag

abbrev pub pm_sfp28_25g_flags : ℕ
pm_sfp28_25g_flags = bit_or (bit_or pm_supported_flag pm_sfp_type_flag) pm_sfp28_25g_flag

abbrev pub pm_qsfp_plus_40g_flags : ℕ
pm_qsfp_plus_40g_flags = bit_or (bit_or pm_supported_flag pm_qsfp_type_flag) pm_qsfp_plus_40g_flag

abbrev pub pm_qsfp28_100g_flags : ℕ
pm_qsfp28_100g_flags = bit_or (bit_or pm_supported_flag pm_qsfp_type_flag) pm_qsfp28_100g_flag

unfoldable pub get_connector_flags : PmConnector → ℕ
get_connector_flags sfp_rj45 = pm_sfp_flags
get_connector_flags sfp_sx = pm_sfp_flags
get_connector_flags sfp_sr = pm_sfp_plus_flags
get_connector_flags sfp_lr = pm_sfp_plus_flags
get_connector_flags sfp_er = pm_sfp_plus_flags
get_connector_flags sfp_lrm = pm_sfp_plus_flags
get_connector_flags sfp_dac = pm_sfp_plus_flags
get_connector_flags sfp28_sr = pm_sfp28_25g_flags
get_connector_flags sfp28_lr = pm_sfp28_25g_flags
get_connector_flags sfp28_cr = pm_sfp28_25g_flags
get_connector_flags qsfp_cr4 = pm_qsfp_plus_40g_flags
get_connector_flags qsfp_sr4 = pm_qsfp_plus_40g_flags
get_connector_flags qsfp_lr4 = pm_qsfp_plus_40g_flags
get_connector_flags qsfp28_sr4 = pm_qsfp28_100g_flags
get_connector_flags qsfp28_lr4 = pm_qsfp28_100g_flags
get_connector_flags qsfp28_cr4 = pm_qsfp28_100g_flags
get_connector_flags qsfp28_clr4 = pm_qsfp28_100g_flags
get_connector_flags qsfp28_psm4 = pm_qsfp28_100g_flags
get_connector_flags qsfp28_cwdm4 = pm_qsfp28_100g_flags
get_connector_flags _ = pm_unsupported_flag

unfoldable pub get_connector_if_type : PmConnector → InterfaceType
get_connector_if_type sfp_sx = InterfaceType.gbase1_sx
get_connector_if_type sfp_rj45 = InterfaceType.gbase1_t
get_connector_if_type sfp_dac = InterfaceType.gbase10_cr
get_connector_if_type sfp_sr = InterfaceType.gbase10_sr
get_connector_if_type sfp_lr = InterfaceType.gbase10_lr
get_connector_if_type sfp_er = InterfaceType.gbase10_er
get_connector_if_type qsfp_cr4 = InterfaceType.gbase40_cr4
get_connector_if_type qsfp_sr4 = InterfaceType.gbase40_sr4
get_connector_if_type qsfp_lr4 = InterfaceType.gbase40_lr4
get_connector_if_type sfp28_cr = InterfaceType.gbase25_cr
get_connector_if_type sfp28_sr = InterfaceType.gbase25_sr
get_connector_if_type sfp28_lr = InterfaceType.gbase25_lr
get_connector_if_type qsfp28_cr4 = InterfaceType.gbase100_cr4
get_connector_if_type qsfp28_sr4 = InterfaceType.gbase100_sr4
get_connector_if_type qsfp28_lr4 = InterfaceType.gbase100_lr4
get_connector_if_type qsfp28_clr4 = InterfaceType.gbase100_clr4
get_connector_if_type qsfp28_psm4 = InterfaceType.gbase100_psm4
get_connector_if_type qsfp28_cwdm4 = InterfaceType.gbase100_cwdm4
get_connector_if_type _ = InterfaceType.unknown

-- flags & flag, read as a truth value
abbrev pub has_flag : ℕ → ℕ → Bool
has_flag flags flag = not (bit_and flags flag == 0)

-- The tests CONNECTOR_IS_... on the flags of an interface.
unfoldable pub connector_is_sfp : ℕ → Bool
connector_is_sfp flags =
    has_flag flags pm_sfp_type_flag
    && not (has_flag flags (bit_or pm_sfp_plus_10g_flag pm_sfp28_25g_flag))

unfoldable pub connector_is_sfp_plus_10g : ℕ → Bool
connector_is_sfp_plus_10g flags =
    has_flag flags pm_sfp_type_flag && has_flag flags pm_sfp_plus_10g_flag

unfoldable pub connector_is_sfp28_25g : ℕ → Bool
connector_is_sfp28_25g flags = has_flag flags pm_sfp_type_flag && has_flag flags pm_sfp28_25g_flag

unfoldable pub connector_is_qsfp_plus_40g : ℕ → Bool
connector_is_qsfp_plus_40g flags =
    has_flag flags pm_qsfp_type_flag && has_flag flags pm_qsfp_plus_40g_flag

unfoldable pub connector_is_qsfp28_100g : ℕ → Bool
connector_is_qsfp28_100g flags =
    has_flag flags pm_qsfp_type_flag && has_flag flags pm_qsfp28_100g_flag
