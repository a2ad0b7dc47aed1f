-- ===== src/Lib.antt =====
-- The network daemon: models of its routing core, its DHCP client, its interface manager, its stored
-- credentials, the supervisor of its WiFi, the wpa_supplicant backend and its service, and the
-- theorems that make them correct.
--
-- The daemon is a set of actors. The interface manager owns the table of interfaces and broadcasts
-- an event when one is added, removed or changed. The DHCP client of an interface obtains, extends
-- and loses a lease, and tells its manager. The WiFi manager of an interface starts its backend
-- again when it dies; the backend talks to wpa_supplicant, keeps the known networks, and answers
-- scans, connections and registrations. The storage keeps credentials, encrypted. The service starts
-- and stops the managers of the interfaces as they come and go, and gives a WiFi manager the
-- networks that were saved. The route manager receives the interface events and the kernel's route
-- changes, keeps a table of routes and, for IPv4 and IPv6, a table of backup routes (which interface
-- has a gateway, and which networks each interface reaches), and asks the kernel to delete the
-- routes of a dead interface, to add them back through another interface, and to add a default route
-- when there is none. An actor handles one message at a time: a handler is a function from the state
-- and a message to the new state and what is sent.
--
-- Files, and the code they are about (paths from the repository's root):
--   Prelude           names of the libraries, keys, sets and maps (HashMap, HashSet, BTreeSet as lists);
--                     its children Text, Int and Search the texts, i32 and the searches of the standard
--                     library
--   Ip                libnetwork-daemon/src/ip.rs: net_id, into_prefixed; an address is its bits
--   Ssid              libnetwork-daemon/src/utils/ssid.rs: escapes on character numbers, truncation
--   Mac               libnetwork-daemon/src/interface/mac.rs: parse and Display of MacAddr, on character
--                     numbers; its child Printed is about an address that is printed and parsed
--   Broadcast         libnetwork-daemon/src/utils/broadcast.rs: the queue of a broadcast's senders
--   Config            network-daemon/src/config/mod.rs: the settings, upsert_network and remove_network
--   Storage           network-daemon/src/storage/mod.rs: the cipher's format, the credentials and their
--                     messages; its child SecretKey the file of the secret key. AES-GCM, the database
--                     and the file system are parameters
--   Interface/Info    libnetwork-daemon/src/interface/mod.rs and state.rs: InterfaceInfo and its states
--   Interface/Link    libnetwork-daemon/src/interface/mod.rs and wifi/link.rs: the parameters of links
--   Interface/Table   network-daemon/src/interface/table.rs: InterfaceTable, one function per method
--   Interface/Machine what the interface manager asks of the kernel and of config.toml, as a parameter
--   Interface/Manager network-daemon/src/interface/mod.rs: the state, and a method as a function on it
--                     and on the state of the machine. Its children: Restore (saved policies, links to
--                     restore, WLAN interfaces), Refresh (refresh_interfaces), Persist (what is written
--                     to config.toml), Actions and Handler (the handlers of the actions), Messages
--                     (both message handlers)
--   Wifi/Security     libnetwork-daemon/src/wifi/security.rs: Security and its readings
--   Wifi/Network      libnetwork-daemon/src/wifi/network.rs: KnownNetwork, ScanFlags, ScanResult
--   Wifi/Status       libnetwork-daemon/src/wifi/status.rs: WpaState and SupplicantStatus
--   Wifi/Events       libnetwork-daemon/src/wifi/events.rs: WpaEvent::parse
--   Wifi/Commands     libnetwork-daemon/src/wifi/mod.rs: WpaCommand; error/wifi.rs and error/wpa.rs
--   Wifi/Actions      libnetwork-daemon/src/wifi/mod.rs: the actions, responses and events
--   Wifi/Control      network-daemon/src/wifi/wpa_supplicant/control/mod.rs, and the commands of
--                     network-daemon/src/wifi/wpa_supplicant/mod.rs; the control socket is a parameter. Its
--                     child Links has the commands that select a network, and the status
--   Wifi/Supplicant   network-daemon/src/wifi/wpa_supplicant/mod.rs: WpaSupplicant and its known
--                     networks. Its children: Registry (registering and removing one), Choice (choosing
--                     one and connecting), Messages (the handler of the actions and events)
--   Wifi/Manager      network-daemon/src/wifi/manager.rs: WifiManager, with the backend as a parameter; its
--                     child Started is about the attempts to start a backend
--   Daemon/Profiles   network-daemon/src/daemon/service.rs: persisted_networks; its child Loaded is about
--                     which networks are loaded
--   Daemon/Service    network-daemon/src/daemon/service.rs: the service's handlers, with the actors as a
--                     parameter; its child Supervised is about the managers of the interfaces
--   Route/Api         what the code uses of the vendored crate vendor/route_manager, as a parameter
--   Route/Backup      network-daemon/src/route/backup.rs: BackupRouteTable, one function per method
--   Route/Table       network-daemon/src/route/table.rs: RouteTable, one function per method
--   Route/Manager     network-daemon/src/route/mod.rs: both message handlers and on_start
--   Dhcp/Lease        libnetwork-daemon/src/dhcp.rs: Lease and LeaseBuilder
--   Dhcp/Attempt      network-daemon/src/dhcp/utils.rs: the loop of attempt, with its doubled timeout
--   Dhcp/Client       network-daemon/src/dhcp/client.rs: the client's state, and how it reads answers
--   Dhcp/Transactions network-daemon/src/dhcp/client.rs: request, renew, rebind, release, decline, on_start
--                     and the handler of lease events (renew and rebind share `extend`)
--   Dhcp/Watchdog     network-daemon/src/dhcp/lease.rs: the stream of timer stages and its handler
--
-- Children of these modules hold the proofs: Indexed and Consistent the well-formedness of a table,
-- Laws and Lists what its operations and queries return, Interfaces and Clashes what removal by
-- interface and taken keys do, History a backup table against the sequence of its operations,
-- Invariant, Changes, Requests, Restored and Defaults the handlers of the manager, NetId the network
-- part of an address. In Storage, Saved is about a saved credential. In Interface/Manager, Rounds
-- and Names are about the loops of Restore, Replaced and Distinct about a refresh, Stored about the
-- file, Keeps, Untouched, Indexed and Invariant about what the handlers keep, Events about the
-- kernel's events. In Wifi, Printed is about a printed scan line, Cleanup and Leaks about a
-- configuration that fails, Given about the number of a network, Profiles, Filed, Edits, Selected,
-- Connected, Kept and Hidden about the known networks. In Dhcp, Timers is about the times of a
-- lease, Rounds and Preserved about the loop of attempt and what it keeps, Receive about the
-- answers, Order about the stages of the timers, Preserved, Extension and Reports about the
-- transactions and the handler. Modules called Tests hold the runs on small inputs.
--
-- An operation on a table is a function from the table to the new table. `none` is a panic. A
-- mutable map is an association list with one entry per key, looked up by key alone; the order of
-- iteration, which the code leaves open, is the one of the list. Loops are recursion on the list
-- that the code iterates over, or on the number of rounds that the code is given; what a DHCP client
-- receives is a finite list of arrivals, with a timeout after it. Some loops run on fuel. The loop
-- that restores links has one more than there are links, which is enough since every pass but the
-- last creates one; the loop that names a WLAN interface has one more than there are names, which is
-- enough since every number that it passes over is taken. The loop that starts a WiFi backend has
-- four rounds, which is enough since it ends when its counter, which starts at zero, is three. The
-- reading of escapes has the number of characters, which is enough since every step takes at least
-- one (Ssid/Escaped). Bits are native numbers with their wrap-around written out. The requests to
-- the kernel are returned as a list, in order.
--
-- Not modelled: the kernel, netlink and socket I/O, the actor runtime, logging, serialisation, the
-- text forms of IP addresses, the requests that ifconfig.rs and query.rs make to the kernel, the
-- sockets, the streams and the child process of the WiFi backend, the statements that open and
-- migrate the credentials' database, the start of the daemon and its clients, the terminal
-- interface, the schema generator, and the vendored crate, whose order of routes is a parameter (on
-- FreeBSD it compares prefix lengths alone, which is a hypothesis where it is used).
pub mod Prelude
pub mod Ip
pub mod Ssid
pub mod Mac
pub mod Broadcast
pub mod Config
pub mod Storage
pub mod Interface
pub mod Wifi
pub mod Route
pub mod Dhcp
pub mod Daemon
