-- ===== src/Lib.antt =====
-- ops-intfd, the interface daemon of OpenSwitch: a model of the logic that turns the columns of the
-- Interface table into the state of each interface, and of the arbiter of its forwarding state.
--
-- The daemon reads the rows of the Interface table (intfd_reconfigure in src/intfd_ovsdb_if.c), parses
-- their columns into `struct iface`, settles what each interface should do (set_interface_config) and
-- writes the columns `error` and `hw_intf_config`; then the arbiter (src/intfd_arbiter.c) walks over
-- the forwarding layers of each interface and writes the column `forwarding_state`.
--
-- Which file models which part:
--   Prelude      shared names, Boolean tests on numbers, lists, signed integers.
--   CString      C strings as lists of bytes, with the calls of the C library that the daemon makes:
--                strcmp, strncmp, strtok, atoi and "%d"; is_a_number and the macro STR_EQ.
--                CString/Equality has the lemmas on comparisons, CString/Decimal those on printing and
--                reading numbers, CString/Tokens those on strtok; CString/Strtol has strtol.
--   StringMap    the calls of the string maps of Open vSwitch (struct smap, lib/smap.h), which are not
--                part of the repository: a record of the calls with what is documented of them.
--                StringMap/Assoc shows by association lists that the record can be filled.
--   Smap         those calls under their names in C; Smap/Laws has their laws.
--   Schema       the enumerations of the schema, and a record `Idl` of the strings and numbers of the
--                generated headers and the calls of the string maps, which everything else takes as
--                an instance argument.
--                Schema/Sample is one choice of them, and Schema/Distinct shows that its names differ.
--   Database     a row of the Interface table.
--   Interface    struct iface and its parts (src/intfd_ovsdb_if.c), constants of include/intfd.h.
--   Utils        src/intfd_utils.c.
--   Connector    get_connector_flags, get_connector_if_type, and the macros CONNECTOR_IS_... of
--                include/intfd.h; Connector/Kinds is about their agreement.
--   Parse        the parsers: Parse/Speeds (parse_speeds, the check of the user's speeds, the MTU),
--                Parse/UserCfg (intfd_parse_hw_info, intfd_parse_user_cfg), Parse/PmInfo
--                (intfd_parse_pm_info, intfd_parse_split_pm_info).
--   Config       set_interface_config and what it calls: Config/Capability
--                (validate_n_set_interface_capability), Config/State (calc_intf_op_state_n_reason,
--                set_op_state_mtu, _pause, _duplex), Config/HwConfig (set_intf_hw_config_in_db),
--                Config/Set (the whole).
--   Update       the part of handle_interfaces_config_mods for one modified row, without its children;
--                Update/Merge is about its comparisons.
--   Arbiter      src/intfd_arbiter.c: Arbiter/Layer is about one layer, Arbiter/Chain about any chain
--                of layers, Arbiter/Registered about the layers that the daemon registers,
--                Arbiter/Column about the column written.
--   Pass         intfd_arbiter_run of src/intfd_ovsdb_if.c, the arbiter over every row of the table;
--                Pass/Columns is about the columns that it leaves.
--   Daemon       the rest of src/intfd_ovsdb_if.c: Daemon/Ports and Daemon/PortChanges (port_reconfigure
--                and what it calls), Daemon/Interfaces (the cache all_interfaces, parents and children),
--                Daemon/InterfaceChanges (handle_interfaces_config_mods), Daemon/Run (intfd_reconfigure,
--                intfd_run). Daemon/Maps has the lemmas on struct shash; Daemon/Frame and its children
--                say what the operations leave alone; Daemon/Cache and Daemon/Sync are about the
--                cache, Daemon/Round about sequences of rounds, Daemon/Leave about interfaces
--                that lose their port, Daemon/OldPort and Daemon/Release about ports and interfaces
--                that are deleted.
--   Cli          commands of src/cli/intf_vty.c: Cli/Commands (shutdown, speed, mtu, duplex, flowcontrol,
--                autonegotiation), Cli/Names (the comparison of interface names). Cli/Effect, Cli/OnlyKey
--                (with Cli/OnlyKey/Edits) and Cli/Faults are about what a command may do to the rows, Cli/Readback and
--                Cli/FlowControl about what the daemon then reads, Cli/Orders and Cli/NameOrder about
--                the order of the names.
--                Cli/Split is what the command split removes, and Cli/Split/Command the command;
--                Cli/Split/Ports and Cli/Split/Lag are about the ports that are left, Cli/Split/Removal
--                about the whole command.
--                Cli/Select is the commands interface and no interface, Cli/Select/Child and
--                Cli/Select/Parent are about the names of split children, Cli/Select/AfterSplit about
--                the two commands one after the other.
--   Show         show running-config: Show/Context (the callback of src/cli/vtysh_ovsdb_intf_context.c),
--                Show/Qos (src/cli/qos_intf.c), Show/Running (cli_show_run_interface_exec of
--                src/cli/intf_vty.c) with Show/Layer3, Show/Ospf and Show/Lag (the parts that it calls).
--                A printed line is a constructor of `Line`. Show/Management is the management interface,
--                Show/Qos/Display what show interface prints of the quality of service. Show/Extends, Show/Running/Rest and
--                Show/Running/Filter are about the argument of the command; Show/Replay runs the lines
--                as commands, one line at a time in Show/Replay/Steps, with the map that results in
--                Show/Replay/Profile, Columns and Idle, and what the daemon parses of it in Values and
--                RoundTrip.
--   Snmp         src/snmp/ifmib/IF_MIB_custom.c: Snmp (the rows shown, their index and states), Snmp/Speeds,
--                Snmp/Counters. Snmp/Masks has the lemmas on masks of bits, Snmp/Rows and Snmp/Laws the
--                results.
-- The modules called Tests apply the results at concrete inputs.
--
-- How the state corresponds: a function that changes a structure returns the changed record, and a
-- result `none` is an access through a null or dangling pointer. The global list of layers is an
-- argument and a result of `interface_run`. The daemon's memory is a record `World`: the caches, the
-- allocated interfaces by their address, and the Interface table with a number for each row. What the
-- client answers in a round (the other tables, the lock, what was changed) is a record `Feed`; a map
-- of names (struct shash) is the list of its entries in the order in which a loop visits them, and the
-- results hold for any such order. The row of an interface is read through its number, and a number
-- that is not in the table is a pointer to a deleted row. A command of the command line takes
-- a record `Session` of what the terminal and the transaction do, and gives its result with the rows;
-- rows are written only by a transaction that is committed. The command split works on a record `Db` of
-- tables whose rows refer to each other by number. The command interface works on a record `Vty` of the
-- terminal and on a database of any type, of which a record `Shell` has the tables that it reads and
-- the shell's functions that change it. The shell's utilities (port_find and the like) are
-- fields of the records `Host` and `Utils`, arguments of what calls them. Arrays of speeds are lists of ten entries, uint32_t are
-- natural numbers below 2 ^ 32, int32_t are integers; atoi saturates at 64 bits and wraps to 32 as
-- glibc does. Every loop is a recursion on a list or on a count, except the printing of a number,
-- which has fuel for ten digits: an int has no more.
--
-- Not modelled: the database session, the debug dump, logging, process start
-- (src/intfd.c), the other commands of the command line interface (src/cli), the rest of show
-- interface, and of the SNMP agents (src/snmp) the tables generated from the MIBs, IP-MIB, ifPhysAddress and the accessors
-- that always give 0.
pub mod Prelude
pub mod CString
pub mod StringMap
pub mod Smap
pub mod Schema
pub mod Database
pub mod Interface
pub mod Utils
pub mod Connector
pub mod Parse
pub mod Config
pub mod Update
pub mod Arbiter
pub mod Pass
pub mod Daemon
pub mod Cli
pub mod Show
pub mod Snmp
