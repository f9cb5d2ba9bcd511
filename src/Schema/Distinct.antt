-- ===== src/Schema/Distinct.antt =====
-- The sample's names of connectors, its keys of hw_intf_config, and its values of autonegotiation and
-- flow control differ.
use ops_intfd.Prelude.{◌≡◌, refl, sym, ap, ◌∙◌, some, [], ◌∷◌, ◌==◌, if◌then◌else◌}
use ops_intfd.CString.{CString, bytes, is_str, str_eq, strncmp_is_zero}
use ops_intfd.Schema.{PmConnector, HwConfigKey, UserConfigKey, UserAutoneg, UserPause}
use ops_intfd.Schema.Sample.{sample}
use ops_intfd.Parse.PmInfo.{parse_connector}

-- A function with a left inverse is injective.
injective {ℓ κ} :
    {A : Type ℓ} {B : Type κ} (f : A → B) (g : B → A)
    → ((a : A) → g (f a) ≡ a)
    → (a b : A) → f a ≡ f b
    → a ≡ b
injective f g left a b h = sym (left a) ∙ ap g h ∙ left b

parse-connector_name : (c : PmConnector) → parse_connector (some (sample.connector_name c)) ≡ c
unfolding parse_connector is_str str_eq strncmp_is_zero
parse-connector_name PmConnector.absent = refl
parse-connector_name _ = refl

pub connector_name-injective :
    (a b : PmConnector) → sample.connector_name a ≡ sample.connector_name b → a ≡ b
connector_name-injective =
    injective sample.connector_name (λ s. parse_connector (some s)) parse-connector_name

-- The key by its first letter.
abbrev key_at : CString → HwConfigKey
key_at [] = HwConfigKey.enable
key_at (c ∷ _) =
    if c == b'e'
    then HwConfigKey.enable
    else if c == b'a'
    then HwConfigKey.autoneg
    else if c == b'd'
    then HwConfigKey.duplex
    else if c == b'p'
    then HwConfigKey.pause
    else if c == b'm'
    then HwConfigKey.mtu
    else if c == b's'
    then HwConfigKey.speeds
    else HwConfigKey.interface_type

key_at-hw_config_key : (k : HwConfigKey) → key_at (sample.hw_config_key k) ≡ k
key_at-hw_config_key HwConfigKey.enable = refl
key_at-hw_config_key _ = refl

pub hw_config_key-injective :
    (a b : HwConfigKey) → sample.hw_config_key a ≡ sample.hw_config_key b → a ≡ b
hw_config_key-injective = injective sample.hw_config_key key_at key_at-hw_config_key

abbrev autoneg_at : CString → UserAutoneg
autoneg_at s =
    if str_eq s (bytes "off")
    then UserAutoneg.off
    else if str_eq s (bytes "on")
    then UserAutoneg.on
    else UserAutoneg.default

autoneg_at-user_autoneg_name : (a : UserAutoneg) → autoneg_at (sample.user_autoneg_name a) ≡ a
unfolding str_eq
autoneg_at-user_autoneg_name UserAutoneg.off = refl
autoneg_at-user_autoneg_name _ = refl

pub user_autoneg_name-injective :
    (a b : UserAutoneg) → sample.user_autoneg_name a ≡ sample.user_autoneg_name b → a ≡ b
user_autoneg_name-injective =
    injective sample.user_autoneg_name autoneg_at autoneg_at-user_autoneg_name

abbrev pause_at : CString → UserPause
pause_at s =
    if str_eq s (bytes "rxtx")
    then UserPause.rxtx
    else if str_eq s (bytes "tx")
    then UserPause.tx
    else if str_eq s (bytes "rx")
    then UserPause.rx
    else UserPause.no_pause

pause_at-user_pause_name : (p : UserPause) → pause_at (sample.user_pause_name p) ≡ p
unfolding str_eq
pause_at-user_pause_name UserPause.rxtx = refl
pause_at-user_pause_name _ = refl

pub user_pause_name-injective :
    (a b : UserPause) → sample.user_pause_name a ≡ sample.user_pause_name b → a ≡ b
user_pause_name-injective = injective sample.user_pause_name pause_at pause_at-user_pause_name

abbrev user_key_at : CString → UserConfigKey
user_key_at s =
    if str_eq s (bytes "admin")
    then UserConfigKey.admin
    else if str_eq s (bytes "autoneg")
    then UserConfigKey.autoneg
    else if str_eq s (bytes "pause")
    then UserConfigKey.pause
    else if str_eq s (bytes "duplex")
    then UserConfigKey.duplex
    else if str_eq s (bytes "speeds")
    then UserConfigKey.speeds
    else if str_eq s (bytes "mtu")
    then UserConfigKey.mtu
    else UserConfigKey.lane_split

user_key_at-user_config_key : (k : UserConfigKey) → user_key_at (sample.user_config_key k) ≡ k
unfolding str_eq
user_key_at-user_config_key UserConfigKey.admin = refl
user_key_at-user_config_key _ = refl

pub user_config_key-injective :
    (a b : UserConfigKey) → sample.user_config_key a ≡ sample.user_config_key b → a ≡ b
user_config_key-injective = injective sample.user_config_key user_key_at user_key_at-user_config_key
