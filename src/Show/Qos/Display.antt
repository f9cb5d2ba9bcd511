-- ===== src/Show/Qos/Display.antt =====
-- src/cli/qos_intf.c: what show interface prints of the quality of service of a port. At the end it is
-- compared with show running-config.
use ops_intfd.Prelude.{◌≡◌, refl, Option, none, some, List, [], ◌∷◌, if◌then◌else◌, ◌>>=◌}
use ops_intfd.CString.{CString, bytes, strncmp_is_zero}
use ops_intfd.Smap.{Smap, smap_get}
use ops_intfd.Schema.{Idl}
use ops_intfd.Show.{Port, Tables, Line, Out}
use ops_intfd.Show.Qos.{
  get_owning_lag, is_member_of_lag, show_port_value, qos_port_show_running_config,
  qos_trust_port_show_running_config, qos_cos_port_show_running_config,
  qos_apply_port_show_running_config, qos_dscp_port_show_running_config, qos_trust_key,
  qos_cos_override_key, qos_dscp_override_key,
}

-- A printed line with its arguments; a string that is a null pointer is `none`.
pub data Display : Type 0 where
  trust : Option CString → Display
  cos_override dscp_override : CString → Display
  queue_profile schedule_profile : Option CString → Display
  queue_profile_status schedule_profile_status : CString → CString → Display

-- The row of the System table: `q_profile` and `qos` are the names in the rows that these columns
-- point to. The columns of pointers are null if the database has no profile.
pub record System : Type 0 where
  pub qos_config : Smap
  pub q_profile : Option (Option CString)
  pub qos : Option (Option CString)

-- The configuration in force: that of the lag which has the interface, or of its own port.
unfoldable pub port_to_show : Tables → Option Port → CString → Option Port
port_to_show tables port name = elim (get_owning_lag tables.ports name) [
  | none ↦ port
  | some lag ↦ some lag
]

abbrev pub or_else : Option CString → Option CString → Option CString
or_else none default = default
or_else (some value) default = some value

-- The name of the profile with its status. strncmp is called on it only if there is a status.
unfoldable pub show_profile :
    (Option CString → Display)
    → (CString → CString → Display)
    → Option CString
    → Option CString
    → Option Display
show_profile plain differing name none = some (plain name)
show_profile plain differing none (some status) = none
show_profile plain differing (some name) (some status) =
    some (if strncmp_is_zero name status 64 then plain (some name) else differing name status)

-- The name of the profile of the port, and of the system if the port has none.
abbrev pub queue_name : Option Port → Option CString → Option CString
queue_name none default = default
queue_name (some port) default = or_else port.q_profile default

abbrev schedule_or : Option (Option CString) → Option CString → Option CString
schedule_or none default = default
schedule_or (some name) default = name

abbrev pub schedule_name : Option Port → Option CString → Option CString
schedule_name none default = default
schedule_name (some port) default = schedule_or port.qos default

module _ ⦃idl : Idl⦄ where
  abbrev pub port_value : (Port → Smap) → CString → Option Port → Option CString
  port_value column key none = none
  port_value column key (some port) = smap_get (column port) key

  -- A null row of the System table is a fault.
  unfoldable pub qos_trust_port_show :
      Option System → Tables → Option Port → CString → Option (List Display)
  qos_trust_port_show none tables port name = none
  qos_trust_port_show (some system) tables port name =
      let value =
        port_value (λ shown. shown.qos_config) qos_trust_key (port_to_show tables port name) in
      some (trust (or_else value (smap_get system.qos_config qos_trust_key)) ∷ [])

  abbrev show_value : (CString → Display) → Option CString → List Display
  show_value line none = []
  show_value line (some value) = line value ∷ []

  unfoldable pub qos_cos_port_show : Tables → Option Port → CString → List Display
  qos_cos_port_show tables port name =
      show_value cos_override (
        port_value (λ shown. shown.qos_config) qos_cos_override_key (port_to_show tables port name))

  unfoldable pub qos_dscp_port_show : Tables → Option Port → CString → List Display
  qos_dscp_port_show tables port name =
      show_value dscp_override (
        port_value (λ shown. shown.qos_config) qos_dscp_override_key
          (port_to_show tables port name))

  unfoldable pub qos_apply_port_show :
      Option System → Tables → Option Port → CString → Option (List Display)
  unfolding show_profile
  qos_apply_port_show none tables port name = none
  qos_apply_port_show (some system) tables port name = do
    default_queue ← system.q_profile
    default_schedule ← system.qos
    let shown = port_to_show tables port name
    let queue_status = port_value (λ shown. shown.qos_status) (bytes "queue_profile") shown
    let schedule_status = port_value (λ shown. shown.qos_status) (bytes "schedule_profile") shown
    queue ←
        show_profile queue_profile queue_profile_status (queue_name shown default_queue)
          queue_status
    schedule ←
        show_profile schedule_profile schedule_profile_status (schedule_name shown default_schedule)
          schedule_status
    some (queue ∷ schedule ∷ [])

  -- Nothing is shown in the running configuration for a port that is in a lag.
  show_port_value-member :
      (tables : Tables) (port lag : Port) (value : Port → Option CString) (line : CString → Line)
      (out : Out)
      → get_owning_lag tables.ports port.name ≡ some lag
      → show_port_value tables.ports value line (some port) out ≡ out
  unfolding show_port_value
  show_port_value-member tables port lag value line out owned = rw (is_member_of_lag, owned) refl

  module _ (tables : Tables) (p q : Option Port) (n m : CString)
      (same : port_to_show tables p n ≡ port_to_show tables q m) where
    trust-same :
        (system : Option System)
        → qos_trust_port_show system tables p n ≡ qos_trust_port_show system tables q m
    unfolding qos_trust_port_show
    trust-same none = refl
    trust-same (some system) = rw same refl

    apply-same :
        (system : Option System)
        → qos_apply_port_show system tables p n ≡ qos_apply_port_show system tables q m
    unfolding qos_apply_port_show
    apply-same none = refl
    apply-same (some system) = rw same refl

    cos-same : qos_cos_port_show tables p n ≡ qos_cos_port_show tables q m
    unfolding qos_cos_port_show
    cos-same = rw same refl

    dscp-same : qos_dscp_port_show tables p n ≡ qos_dscp_port_show tables q m
    unfolding qos_dscp_port_show
    dscp-same = rw same refl

  port_to_show-member :
      (tables : Tables) (port lag : Port)
      → get_owning_lag tables.ports port.name ≡ some lag
      → get_owning_lag tables.ports lag.name ≡ none
      → port_to_show tables (some port) port.name ≡ port_to_show tables (some lag) lag.name
  unfolding port_to_show
  port_to_show-member tables port lag owned free =
      rw (port_to_show, owned) (rw (port_to_show, free) refl)

  running-member :
      (tables : Tables) (port lag : Port) (out : Out)
      → get_owning_lag tables.ports port.name ≡ some lag
      → qos_port_show_running_config tables (some port) out ≡ out
  unfolding qos_trust_port_show_running_config qos_cos_port_show_running_config
      qos_apply_port_show_running_config qos_dscp_port_show_running_config
  running-member tables port lag out owned =
      rw
        (
          show_port_value-member tables port lag _ _ _ owned,
          show_port_value-member tables port lag _ _ _ owned,
          show_port_value-member tables port lag _ _ _ owned,
          show_port_value-member tables port lag _ _ _ owned,
        )
        refl

  -- For a port that is in a lag, and a lag that is in none: show interface prints for the port what it
  -- prints for the lag, and show running-config prints nothing for the port.
  pub qos_port_show-member :
      (system : Option System) (tables : Tables) (port lag : Port) (out : Out)
      → get_owning_lag tables.ports port.name ≡ some lag
      → get_owning_lag tables.ports lag.name ≡ none
      → (qos_trust_port_show system tables (some port) port.name
          ≡ qos_trust_port_show system tables (some lag) lag.name)
        × (qos_cos_port_show tables (some port) port.name
            ≡ qos_cos_port_show tables (some lag) lag.name)
        × (qos_apply_port_show system tables (some port) port.name
            ≡ qos_apply_port_show system tables (some lag) lag.name)
        × (qos_dscp_port_show tables (some port) port.name
            ≡ qos_dscp_port_show tables (some lag) lag.name)
        × (qos_port_show_running_config tables (some port) out ≡ out)
  qos_port_show-member system tables port lag out owned free =
      let same = port_to_show-member tables port lag owned free in
      let (p, q) : Option Port × Option Port = (some port, some lag) in
      (
        trust-same tables p q port.name lag.name same system,
        cos-same tables p q port.name lag.name same,
        apply-same tables p q port.name lag.name same system,
        dscp-same tables p q port.name lag.name same,
        running-member tables port lag out owned,
      )
