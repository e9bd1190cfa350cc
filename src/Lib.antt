-- ===== src/Lib.antt =====
-- A verification library for router-sim, a simulator of routers, switches and hosts in Python.
--
-- A router's protocols (routersim/isis, routersim/rsvp) hand routes to its `RoutingTables`
-- (routersim/routing.py). From these it computes a forwarding table, which the forwarding plane
-- (routersim/forwarding.py) searches for each packet, applying label stack operations
-- (routersim/mpls.py) where the entry says so.
--
-- Files:
--   Base        Python's lists, dictionaries, exceptions and stable sorts, and shared lemmas
--   Net         what is used of the module `ipaddress`: networks, containment, overlap
--   Mpls        routersim/mpls.py: `apply` runs a label stack operation on a packet
--   Routing     routersim/routing.py: `add_route`, `del_route`; Replace has `set_routes`, Order the
--               order of prefixes, Select the chains, `lookup_ip` and `forwarding_table`
--   Forwarding  routersim/forwarding.py: the class `ForwardingTable`; Engine has
--               `PacketForwardingEngine`
--   Isis        routersim/isis/tlv.py and pdu.py; of process.py, Isis.Spf and Isis.Paths have
--               `run_full_dijkstra`, Isis.Routes `update_routing_table`, Isis.Update
--               `process_lsp` and `process_snp`, Isis.Local `__refresh_local`, and Isis.Adjacency
--               `__send_hello` and `process_hello`; Isis.Sync has the sends of LSPs and sequence
--               numbers
--   Switching   routersim/switching/bridging.py: `BridgingTable` and `SwitchingEngine`
--   Dhcp        routersim/dhcp.py: `DHCPserver`; Lease and Sessions are about its leases, and Client has
--               `DHCPClient`
--   Arp         routersim/arp.py: `ArpCache` and `ArpHandler`
--   Links       routersim/interface.py: `PhysicalInterface` and `PhysicalLink`, with the queued tasks of
--               routersim/observers.py's `GlobalQueueManager` that are the link's
--   Events      routersim/observers.py: `EventManager`, with observers that do not themselves begin or
--               cease to listen while they are told of an event
--   Host        routersim/server.py and netdevice.py: a host, its addresses and the routes that follow its
--               interfaces; Host.Sending has `send_ip`, `process_frame` and `process_packet`
--   Router      routersim/router.py: the routes that follow a router's interfaces, and the forwarding table
--               that follows the routes
--   Rsvp        routersim/rsvp/process.py: Cspf has `shortest_path`, Reservation `_process_resv`
--   Topology    routersim/topology.py: routers and links, and the addresses that they get
--   Tests       runs of the definitions on small inputs
--
-- Correspondence. Addresses, labels, system ids, interfaces and host names are numbers. An object that
-- the source mutates is a value that an operation takes and returns; observed events are a list that
-- grows at its end. An exception is the result `err`, with its class. Metrics are unbounded natural
-- numbers, as in Python, and `sys.maxsize` is 2 ^ 63 - 1. The interfaces' present states come as a
-- function from interface to Bool, the code that asks for them being a part of its own.
--
-- Fuel. `Isis.Spf.loop` takes one system from the queue in each round, and starts with the length of
-- the queue as its fuel. `resolve_path` goes from a system to the one before it, and each system of the
-- database comes at most once. The loops of `Rsvp.Cspf` have the same fuel for the same reasons.
-- `del_routes_live` goes by index through a list that shrinks under it, and
-- starts with the list's length.
--
-- The clock is an argument. A switch delivers a frame to its own process, on a logical interface or on
-- ports, which are the values of `Delivery`; what the forwarding engine calls is a list of `Effect`. Each
-- send of IS-IS ends in the exception of `send_clns`, whose `Frame` has no definition. `__send_hello`,
-- `__send_partial_snps` and `_process_resv` return what they changed beside how they ended; what another
-- handler changed before it raised is not followed. An MPLS packet carries scapy's `IP` or `None`.
--
-- A DHCP packet is a record of the fields and options that the two sides read; random transaction ids are
-- arguments. A host's logical interfaces have their state, a port whether it is up, and all are
-- administratively up. What scapy makes of a payload is an argument of `process_packet`.
--
-- Not modelled: the end of `process_lsp` for complete sequence numbers PDUs (lines 493 to 501), which no
-- such PDU reaches; the sends of RSVP paths (`create_session`, `__refresh_paths`, `_process_path` and
-- `_create_bypass_lsp` of routersim/rsvp/process.py), whose packets are built with scapy and read by names
-- that scapy does not have; the listener of routersim/router.py that hands packets to the host's handler
-- or the forwarding engine, and `ping` of routersim/netdevice.py; the events of lookups in the
-- forwarding table and of reservations; logging and printing; the vendored parser generator routersim/ply and the grammar on
-- it; the packet library scapy and the declarations in routersim/scapy.py; the set-up of example networks,
-- their pictures and the runs of the clock.
pub mod Base
pub mod Net
pub mod Mpls
pub mod Routing
pub mod Forwarding
pub mod Isis
pub mod Switching
pub mod Dhcp
pub mod Arp
pub mod Links
pub mod Events
pub mod Host
pub mod Router
pub mod Rsvp
pub mod Topology
pub mod Tests
