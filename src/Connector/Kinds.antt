-- ===== src/Connector/Kinds.antt =====
-- The flags of a connector and its interface type tell the same story.
use ops_intfd.Prelude.{ℕ, ◌+◌, ◌≡◌, refl, ◌⊎◌, inl, inr, Bool, true, false, ◌==◌, if◌then◌else◌}
use ops_intfd.Schema.{PmConnector, InterfaceType}
use ops_intfd.Interface.{IntfPmInfo}
use ops_intfd.Connector.{
  pm_unsupported_flag, get_connector_flags, get_connector_if_type, connector_is_sfp,
  connector_is_sfp_plus_10g, connector_is_sfp28_25g, connector_is_qsfp_plus_40g,
  connector_is_qsfp28_100g,
}

-- The number of megabits per second in the name of an interface type.
abbrev pub type_speed : InterfaceType → ℕ
type_speed InterfaceType.unknown = 0
type_speed InterfaceType.backplane = 0
type_speed InterfaceType.gbase1_sx = 1000
type_speed InterfaceType.gbase1_t = 1000
type_speed InterfaceType.gbase10_cr = 10000
type_speed InterfaceType.gbase10_sr = 10000
type_speed InterfaceType.gbase10_lr = 10000
type_speed InterfaceType.gbase10_lrm = 10000
type_speed InterfaceType.gbase10_er = 10000
type_speed InterfaceType.gbase25_cr = 25000
type_speed InterfaceType.gbase25_sr = 25000
type_speed InterfaceType.gbase25_lr = 25000
type_speed InterfaceType.gbase40_cr4 = 40000
type_speed InterfaceType.gbase40_sr4 = 40000
type_speed InterfaceType.gbase40_lr4 = 40000
type_speed _ = 100000

-- The five tests, in any order, as a list of what holds.
abbrev pub count_true : Bool → ℕ
count_true true = 1
count_true false = 0

abbrev pub kinds_of : ℕ → ℕ
kinds_of flags =
    count_true (connector_is_sfp flags)
    + count_true (connector_is_sfp_plus_10g flags)
    + count_true (connector_is_sfp28_25g flags)
    + count_true (connector_is_qsfp_plus_40g flags)
    + count_true (connector_is_qsfp28_100g flags)

-- Exactly one of the five tests holds of the flags of a supported connector, and none of those of
-- an unsupported one, so the order of the tests does not matter.
pub kinds_of-get_connector_flags :
    (c : PmConnector)
    → kinds_of (get_connector_flags c)
      ≡ (if get_connector_flags c == pm_unsupported_flag then 0 else 1)
unfolding get_connector_flags connector_is_sfp connector_is_sfp_plus_10g connector_is_sfp28_25g
    connector_is_qsfp_plus_40g connector_is_qsfp28_100g
kinds_of-get_connector_flags PmConnector.sfp_rj45 = refl
kinds_of-get_connector_flags _ = refl

abbrev pub flags_speed : ℕ → ℕ
flags_speed flags =
    if connector_is_sfp_plus_10g flags
    then 10000
    else if connector_is_sfp28_25g flags
    then 25000
    else if connector_is_sfp flags
    then 1000
    else if connector_is_qsfp_plus_40g flags
    then 40000
    else if connector_is_qsfp28_100g flags
    then 100000
    else 0

-- The speed of a connector, by its flags.
abbrev pub native_speed : PmConnector → ℕ
native_speed c = flags_speed (get_connector_flags c)

-- The flags of a module are those of its connector.
abbrev pub HasOwnFlags : IntfPmInfo → Type 0
HasOwnFlags pm = pm.op_connector_flags ≡ get_connector_flags pm.connector

-- For every connector but SFP_LRM, the speed that its flags stand for is that in the name of its
-- interface type. SFP_LRM has the flags of a 10 Gb/s module and an unknown interface type.
pub flags-if_type_agree :
    (c : PmConnector)
    → (flags_speed (get_connector_flags c) ≡ type_speed (get_connector_if_type c))
      ⊎ ((c ≡ PmConnector.sfp_lrm)
          × (flags_speed (get_connector_flags c) ≡ 10000)
          × (get_connector_if_type c ≡ InterfaceType.unknown))
unfolding get_connector_flags get_connector_if_type connector_is_sfp connector_is_sfp_plus_10g
    connector_is_sfp28_25g connector_is_qsfp_plus_40g connector_is_qsfp28_100g
flags-if_type_agree PmConnector.sfp_lrm = inr (refl, refl, refl)
flags-if_type_agree _ = inl refl
