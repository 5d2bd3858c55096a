-- ===== src/Examples/Data.antt =====
-- The test data.
use halo.Engine.NatKey.{NatFlow}
use halo.Engine.Nat.{new_flow, flow_hash}
use halo.Base.{
  ℕ, true, false, List, [], ◌∷◌, Option, none, some, ◌≡◌, refl, sym, ap, ◌∙◌, arith, length, All,
  IsByte, length-replicate, replicate, some_inj, inr,
}
use halo.Protocol.Utils.{MacAddr, Ipv4Addr}
use halo.Protocol.Udp.{UdpPkt}
use halo.Protocol.Udp.Laws.{IsUdpPkt}
use halo.Protocol.Tcp.{TcpPkt}
use halo.Protocol.Tcp.Laws.{IsTcpPkt}
use halo.Protocol.Icmp.{IcmpPkt}
use halo.Protocol.Icmp.Laws.{IsIcmpPkt}
use halo.Protocol.Arp.{ArpPkt}
use halo.Protocol.Ethernet.{EthFrm}
use halo.Protocol.Dhcp.{DhcpPkt, DhcpOption, zero_option}
use halo.Protocol.Ipv4.{Ipv4Pkt, Ipv4AddrPair}
use halo.Protocol.Ipv4.Laws.{IsIpv4Addr, IsIpv4Pkt}
use halo.Engine.Nat.{Nat, Grants}
use halo.Engine.Route.{RouteEntry, TrieNode, nil, node, add_route}
use halo.Engine.Route.Deleted.{IsPlaced, add_route-IsPlaced}
use halo.Engine.Receive.{NetIf}
use halo.Stack.Buffer.{ByteBuffer}
use halo.Stack.Buffer.Queue.{IsRing}
use halo.ArrayList.{ArrayList}
use halo.ArrayList.Items.{IsArrayList}
use halo.Engine.Nat.{new_flow}

abbrev pub mac_a : MacAddr
mac_a = record { m0 = 2; m1 = 0; m2 = 0; m3 = 0; m4 = 0; m5 = 1 }

abbrev pub mac_b : MacAddr
mac_b = record { m0 = 2; m1 = 0; m2 = 0; m3 = 0; m4 = 0; m5 = 2 }

abbrev pub lan_host : Ipv4Addr
lan_host = record { a0 = 10; a1 = 0; a2 = 0; a3 = 1 }

abbrev pub wan_host : Ipv4Addr
wan_host = record { a0 = 192; a1 = 168; a2 = 1; a3 = 2 }

abbrev pub router_addr : Ipv4Addr
router_addr = record { a0 = 172; a1 = 16; a2 = 0; a3 = 1 }

abbrev pub ends : Ipv4AddrPair
ends = record { src_addr = lan_host; dst_addr = wan_host }

pub lan_host-IsIpv4Addr : IsIpv4Addr lan_host
lan_host-IsIpv4Addr = (omega arith, omega arith, omega arith, omega arith)

pub wan_host-IsIpv4Addr : IsIpv4Addr wan_host
wan_host-IsIpv4Addr = (omega arith, omega arith, omega arith, omega arith)

abbrev pub three : List ℕ
three = 1 ∷ 2 ∷ 3 ∷ []

pub three-IsByte : All IsByte three
three-IsByte = (omega arith, (omega arith, (omega arith, tt)))

abbrev pub datagram_a : UdpPkt
datagram_a = record { payload = three; src_port = 1000; dst_port = 53 }

pub datagram_a-IsUdpPkt : IsUdpPkt datagram_a
datagram_a-IsUdpPkt = record {
  src = omega arith;
  dst = omega arith;
  short = omega arith;
  bytes = three-IsByte;
}

abbrev pub syn_segment : TcpPkt
syn_segment = record {
  payload = three;
  src_port = 1000;
  dst_port = 80;
  seq_num = 7;
  ack_num = 0;
  flags = 2;
  window = 512;
  mss = 1460;
}

pub syn_segment-IsTcpPkt : IsTcpPkt syn_segment
syn_segment-IsTcpPkt = record {
  src = omega arith;
  dst = omega arith;
  seq = omega arith;
  ack = omega arith;
  flag = omega arith;
  win = omega arith;
  segment = omega arith;
  syn = inr refl;
  short = omega arith;
  bytes = three-IsByte;
}

abbrev pub echo : IcmpPkt
echo = record { payload = three; icmp_type = 8; icmp_id = 1 ∷ 2 ∷ []; icmp_seq = 9 }

pub echo-IsIcmpPkt : IsIcmpPkt echo
echo-IsIcmpPkt = record {
  known = refl;
  id_length = refl;
  id_bytes = (omega arith, (omega arith, tt));
  seq = omega arith;
  short = omega arith;
  payload_bytes = three-IsByte;
}

abbrev pub ip_packet : Ipv4Pkt
ip_packet = record { payload = three; ip_head_proto = 17; src_addr = lan_host; dst_addr = wan_host }

pub ip_packet-IsIpv4Pkt : IsIpv4Pkt ip_packet
ip_packet-IsIpv4Pkt = record {
  known = refl;
  src = lan_host-IsIpv4Addr;
  dst = wan_host-IsIpv4Addr;
  short = omega arith;
}

abbrev pub who_has : ArpPkt
who_has = record {
  option = 1;
  src_mac = mac_a;
  src_addr = lan_host;
  dst_mac = mac_b;
  dst_addr = wan_host;
}

abbrev pub small_frame : EthFrm
small_frame = record { payload = three; dst_mac = mac_b; src_mac = mac_a; eth_proto = 0x0800 }

abbrev pub discover : DhcpPkt
discover = record {
  boot_msg_type = 1;
  transaction_id = 1 ∷ 2 ∷ 3 ∷ 4 ∷ [];
  client_ip_addr = lan_host;
  your_ip_addr = wan_host;
  client_mac_addr = mac_a;
}

abbrev pub options : List DhcpOption
options =
    record (zero_option 53) { msg_type = 1 } ∷ record (zero_option 12) { host_name = three } ∷ []

abbrev pub empty_nat : Nat
empty_nat = record {
  nat_type = 0;
  ip_addr = 2886729729;
  tcp_service_map = λ port. false;
  udp_service_map = λ port. false;
  nat_port_mapping_table = [];
  nat_flow_table = [];
  nat_wan_flow_table = [];
  nat_port_alloc = [];
  flows = λ id. none;
  next_flow = 0;
  time_now = 5;
}

abbrev pub all_granted : Grants
all_granted = record {
  port_alloc = true;
  port_map = true;
  port_alloc_slot = true;
  port_slot = true;
  flow = true;
  flow_slot = true;
  wan_slot = true;
}

abbrev pub host_route : RouteEntry
host_route = record {
  dst_ip_addr = wan_host;
  network_mask = record { a0 = 255; a1 = 255; a2 = 255; a3 = 255 };
  next_hop = lan_host;
  has_next_hop = true;
  net_if = "wan0";
}

abbrev pub root : TrieNode
root = node none nil nil

pub root-IsPlaced : IsPlaced root
root-IsPlaced [] l h = absurd (cc)
root-IsPlaced (true ∷ q) l h = absurd (cc)
root-IsPlaced (false ∷ q) l h = absurd (cc)

abbrev pub table : TrieNode
table = add_route root host_route

pub table-IsPlaced : IsPlaced table
table-IsPlaced = add_route-IsPlaced root host_route root-IsPlaced

abbrev pub wan_if : NetIf
wan_if = record {
  ip_addr = wan_host;
  nat_enable = true;
  udp_service_map = λ port. false;
  tcp_service_map = λ port. false;
}

-- A ring of four bytes, of which two are queued around the end.
abbrev pub turned_ring : ByteBuffer
turned_ring = record { bytes = 2 ∷ 0 ∷ 0 ∷ 1 ∷ []; head = 3; size = 2 }

pub turned_ring-IsRing : IsRing turned_ring
turned_ring-IsRing = record { inside = omega arith; fits = omega arith }

abbrev pub full_list : ArrayList ℕ
full_list = record { cells = 1 ∷ 2 ∷ 3 ∷ 4 ∷ 5 ∷ 6 ∷ 7 ∷ 8 ∷ []; len = 8; cap = 8 }

pub full_list-IsArrayList : IsArrayList full_list
full_list-IsArrayList = record { block = refl; room = omega arith; fits = omega arith }

abbrev pub zeroed : ℕ → Option (List ℕ)
zeroed n = some (replicate n 0)

pub zeroed-length : (n : ℕ) (block : List ℕ) → zeroed n ≡ some block → length block ≡ n
zeroed-length n block h = ap length (sym (some_inj h)) ∙ length-replicate {A = ℕ} n 0

abbrev pub syn_message : List ℕ
syn_message =
    0 ∷ 0 ∷ 0 ∷ 255 ∷ 0 ∷ 0 ∷ 0 ∷ 1 ∷ 0 ∷ 0 ∷ 0 ∷ 2 ∷ 0 ∷ 0 ∷ 0 ∷ 3 ∷ 255 ∷ 255 ∷ 255 ∷ 255 ∷ []

pub syn_message-IsByte : All IsByte syn_message
syn_message-IsByte = omega arith

abbrev pub received_pkt : List ℕ
received_pkt =
    0x45 ∷ 0 ∷ 0 ∷ 23 ∷ 0 ∷ 1 ∷ 0 ∷ 0 ∷ 64 ∷ 17 ∷ 0 ∷ 0 ∷ 10 ∷ 0 ∷ 0 ∷ 1 ∷ 192 ∷ 168 ∷ 1 ∷ 2 ∷ three

abbrev pub first_flow : NatFlow
first_flow = new_flow empty_nat (flow_hash empty_nat 20 80 10 1000 6) 32768

-- 256 and 1500 bytes.
abbrev pub long_text : List ℕ
long_text = 65 ∷ replicate 255 65

abbrev pub longer_text : List ℕ
longer_text = 65 ∷ replicate 1499 65
