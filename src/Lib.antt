-- ===== src/Lib.antt =====
-- A model of sensor-edge, an edge gateway: drivers read the points of field devices, an acquisition
-- loop decodes them, a rule engine averages them and raises alarms, and uplinks send reports.
--
-- The parts, and the files that model them:
-- - Go: an error value, a call that returns `(T, error)` or panics, and such calls over a state
--   (Exec). Value: the dynamic types of interface{}, and PointValue and PointConfig of protocols/.
--   Floats: float arithmetic, a parameter; a float is its IEEE 754 bit pattern.
-- - Format: ParseFormat of utils/format_parser.go; Format/Cast: ParseAndCastFormat; Format/Bytes:
--   encoding/binary. Format/ByteOrder compares the formats with the byte order that their names
--   spell.
-- - Modbus: protocols/modbus/modbus_tcp.go. Library is the goburrow client with the network, a
--   parameter over a world W; the clock is read from W, once for each group of a batch. Session is
--   the ModbusTCP object with that world, and Init, ForceReconnect, SetSlave, Close and the four
--   reads with their retry. Address is parseAddress. Bits has the loops that pack and unpack coils
--   and registers. Points and Batch are the four batch reads: Points the pure parts, Batch the
--   loops, on fuel; as much fuel as there are points is enough, since each group takes one at
--   least. Write has the five writes and Read. Session/Methods is about the other methods.
--   Batch/Words and Batch/Codes are about ReadBatch; Batch/Outage puts the driver behind the
--   Protocol interface of Poll/Retry.
-- - Edge: types/edge_rule.go, mapping/mapper.go and edgecompute/rule_engine.go; govaluate is a
--   parameter. Edge/Extract: config/edge_rule_loader.go. Raised has which alarms are raised, Shared
--   the buffer that rules with one name share. A map is an association list (Prelude/Dict).
-- - Queue: uplink/sparkplugb/queue.go, over any Storage and any publish function.
-- - Poll: main.go. Points: types/point.go and the helpers over points; Convert: from a driver's
--   value to the reported one; Retry and Attempts: readWithRetry over a driver behind the Protocol
--   interface; Round: one round of a device's loop; Reporting: the sending of its report; Stored,
--   Readings, Owned and Plant: a round over the Modbus driver, from the device's memory to the
--   values of the report.
-- - Poll/Main: main, from its files to the goroutines that it starts; Launched and Sets have the
--   point sets that get one. Poll/Running: the goroutines of all point sets, the two BACnet
--   listeners and SIGHUP, one step at a time and in any order, over the clients, the rule engine,
--   the uplinks and the registered devices that they share. Collected and Reports have what is
--   reported, Follows, Reload and Windows what becomes of the rule engine, Slaves two goroutines
--   with one client, and Alone the round of one goroutine.
-- - Poll/Setup: the start of a device's acquisition in main.go, with protocols/registry.go and
--   types/device.go: its configuration out of three sources, and its client out of the pool, in
--   which clients are named by their place, since devices share them.
-- - Bacnet: protocols/bacnet/. Points, Client and Write are bacnet.go: how Init reads a point, the
--   client with its three maps, and the methods; Calls are sequences of calls. Iam, Registry,
--   Polling and Template are discover.go: the I-Am parsers, the devices that they register, their
--   polls, and the template of points that is written for a device. Sockets has
--   DiscoverDevicesReal, ListenIAM and the listening loop of main.go, Objects the object types of
--   type.go. Index, ReadBack, Accepts and Once have the lemmas, and Recovers puts the client behind
--   the Protocol interface of Poll/Retry.
-- - Drivers: protocols/tcpclient, slmp, s7, snmp and httpclient, over Net, Gos7, Gosnmp and Web,
--   which stand for the sockets and libraries that they call; Batch is the loop of ReadBatch that
--   four of them share, and Acquire puts these four behind the Protocol interface of Poll/Retry.
-- - Scheduler: core/scheduler.go. The root is a tick of a collecting loop with and without uplinks,
--   Start the start of the loops, Files the three schedulers with the files that they read,
--   Interval SetInterval beside a loop that waits, as a step relation; Mapped, Ticks and Started
--   have what a tick collects and which loops run.
-- - Devices: core/device_manager.go and devices/manager.go; Monitors has registrations and rounds
--   of the health monitors in any order. Loaders: the functions of config/ that load a file, over
--   parameters for reading and decoding.
-- - Uplink: Manager is uplink/manager.go, encoder.go and uplink.go with the five channels, Http is
--   uplink/http/http.go, and Sparkplug and Mapping are sparkplugb.go and subscribe.go of
--   uplink/sparkplugb, with tls.go and the client's options in Sparkplug/Options; Everyone and
--   Renaming have the lemmas.
-- - Api: the routes of cmd/api_server.go.
-- - Prelude: native numbers, lists, maps, two's complement integers and texts that all parts share.
-- - Examples: devices, brokers and drivers to run the definitions on, and the theorems applied to
--   them.
--
-- How they interact: Poll/Main loads the files (Loaders), makes the rule engine (Edge), the uplinks
-- (Uplink/Manager) and the clients (Poll/Setup), and starts the goroutines of Poll/Running. A round
-- calls ReadBatch of a driver with retries, converts the values, for which it uses Format, applies
-- the rules of Edge to all values so far, and makes the report. Batch reads use the driver's
-- connection of Modbus/Session directly, the plain reads through its retry. A tick of Scheduler
-- calls Read of a driver, maps the values, applies the rules of Edge, and hands the report to
-- SendToAll of Uplink/Manager. Sparkplug makes its queue with Queue.
--
-- Machine integers: uint16 addresses and quantities wrap with `% 2 ^ 16`, conversions to byte,
-- uint16, int16 and int32 are written out (Prelude/Int). int is ℤ: its 64 bits are checked where a
-- number is parsed. Retry counters count down from their limit, so that they need no fuel.
--
-- Not modelled: log lines, log files and printing; sleeps, ticks and mutexes; two loops that are
-- inside one step, such as ApplyRules on one rule engine or a read through one client, at the same
-- time; YAML, JSON, TLS and HTTP, which are parameters; the commands, which print fixed texts, and
-- interfaces and structures that nothing uses.
mod Prelude
pub mod Go
pub mod Value
pub mod Floats
pub mod Format
pub mod Modbus
pub mod Edge
pub mod Queue
pub mod Bacnet
pub mod Drivers
pub mod Uplink
pub mod Scheduler
pub mod Loaders
pub mod Devices
pub mod Poll
pub mod Api
pub mod Examples
