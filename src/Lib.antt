-- ===== src/Lib.antt =====
-- A verification library of halo: packet codecs, a router with NAT, and the containers they use.
--
-- The program. protocol/*.go turns byte slices into packet structs and back, layer by layer, and
-- rewrites packets in place for forwarding. engine/*.go is a router on top of it: RxIpv4 hands a
-- received packet to a service of the interface or forwards it, by the route table and through
-- NAT. protocol/kcp/enet.go is Halo's control message in front of a KCP session, protocol/tcp a
-- user-space TCP stack over the codecs. list, hashmap and mem are containers over explicit allocators.
--
-- The model, by directory:
--   Base        native numbers, lists, copies between slices, big-endian words, finite maps, results
--   Protocol    Utils: protocol/utils.go (GetCheckSum, IpAddrToU, UToIpAddr); Arp, Ethernet, Icmp,
--               Ipv4, Udp, Tcp, Dhcp: the ParseX and BuildX of protocol/x.go as parse_x and build_x;
--               Rewrite: HandleIpv4PktTtl, ReCalc...CheckSum, NatGetSrcDstPort, NatChangeSrc and
--               NatChangeDst of protocol/ipv4.go; Delivery: the three layers together
--   Engine      engine/ipv4_engine.go. Route: RouteTable; NatKey and Nat: the NAT flow tables of an
--               interface, Nat/Clear: NatTableClear and ListNat; Receive: the dispatch of RxIpv4.
--               Router: the state of engine.go and the calls on it. Link: TxEthernet; Arp:
--               arp_engine.go; Transmit: TxIpv4 and what is sent through it; Services: RxIcmp, RxUdp,
--               RxTcp, RxUdpBroadcast; Inbound, Outbound and Forward: the parts of Ipv4RouteForward, in
--               this order; Dispatch: RxEthernet, RxIpv4 with its handlers, the loopback of
--               PacketHandle; Sweep: NatPortMappingFlowClear and SendUdpPktByFlow. The other modules
--               of Router are about these. Switch: the learning switch of ethernet_engine.go.
--   Kcp/Enet    protocol/kcp/enet.go
--   Stack       protocol/tcp. Buffer: the ring of buffer.go; Types: the structs and constants; Emit:
--               emit, reset, fail, queue; Pump: pump; Admission, Acks, Arrived and Segment: the parts
--               of input, in this order but for Segment, which puts them together; Tick: tick; Calls:
--               the methods of conn.go; Ports: the search for a local port; Table and Arrival: Dial
--               and Input of stack.go; Listening: listener.go; Running: the rounds of run. Diagram,
--               Sender, Receiver and Transfer are about all of these.
--   ArrayList   list/array_list.go
--   HashMap     hashmap/hashmap.go: Set is set_value, For is for_each
--   Mem         the fixed strings of mem/static_allocator.go
--   Examples    the theorems at concrete packets, tables and buffers
--
-- How the code is written down. A byte slice is a list of numbers, read with zero outside of it
-- after the code's own length test; an integer of w bits keeps its wrap-around as % 2 ^ w. A parser
-- returns the struct, or the struct that the code returns beside an error. CheckSumEnable is the
-- argument `check`, the counter iphId an argument and a result. A lock makes an operation one step.
-- The route trie shares no node, so it is a tree; a nil list and an empty list are told apart. A
-- NAT flow that both tables share is a cell of a store, and the hash map behind the tables is a
-- finite map there. The outcome of every allocation is an argument, so each failure path is a branch.
-- Go's map iteration order in BuildDhcpOption is the order of a list that may be any. Parameters
-- stand for code that is not the program's: the FNV hash of hash/fnv, the hash that a key type
-- gives the hash map, and the answers of an allocator.
--
-- A call on a router takes the router and gives the new one, or `none` for a panic: a missing
-- interface, or FindRoute on an empty list. An interface is named by its key in NetIfMap. The frames
-- given to EthTxFunc and the calls of service handlers are lists of the state, oldest first. Slices
-- of one packet that share memory are one list, written at its offsets. A ticker's loop is one tick,
-- and what Ping waits for is left out. The loopback channel holds 1024 packets, as in the code. A
-- switch's frames follow one another, save in Race, where one comes in between. What its allocator
-- hands out is a cell with any contents.
--
-- In the TCP stack a time is a number of nanoseconds, and the time of a call is its argument, as is
-- the initial sequence number, which the code makes with an HMAC. Connections and listeners, which
-- point to one another, are numbered cells of the stack; while a method runs, its connection is
-- beside the stack (Env). A method that waits is one round of its loop, and what it returns at the
-- end of the round, or that it waits. One mutex guards the stack, so a round is one step. A network
-- and a peer are two such connections and the packets that one of them queues.
--
-- Fuel. The checksum's folding loop runs on three rounds, which a 32-bit sum needs at most; the
-- TCP option loop on as many rounds as the header has bytes, the DHCP option loop on as many as
-- there are bytes of options; the search
-- for a NAT port on 32769 rounds, one more than there are dynamic ports.
--
-- Not modelled: the goroutines of the engine and the router's configuration, its DHCP server and
-- client, the goroutine that runs the rounds of the TCP stack and its channels, the allocators and the ring
-- buffer of mem, p2p; the copies of kcp-go and of gopacket's pcap binding; logging, thread binding,
-- DPDK and the sample programs.
pub mod Base
pub mod Protocol
pub mod Engine
pub mod Kcp
pub mod Mem
pub mod ArrayList
pub mod HashMap
pub mod Stack
pub mod Examples
