-- ===== src/Examples/Routers.antt =====
-- A router between a LAN and a WAN, for the tests.
use halo.Base.{true, false, [], ◌∷◌, none, arith}
use halo.Protocol.Utils.{MacAddr, Ipv4Addr, ip_addr_to_u}
use halo.Protocol.Ipv4.Laws.{IsIpv4Addr}
use halo.Protocol.Udp.{UdpPkt}
use halo.Protocol.Udp.Laws.{IsUdpPkt}
use halo.Engine.NatKey.{NatFlow}
use halo.Engine.Nat.{new_flow, flow_hash}
use halo.Engine.Route.{RouteEntry, TrieNode, add_route}
use halo.Engine.Router.{Router, Interface, Answers, ArpCache, nat_view}
use halo.Examples.Data.{
  mac_a, mac_b, lan_host, wan_host, router_addr, root, empty_nat, all_granted, three, three-IsByte,
}

abbrev pub lan_addr : Ipv4Addr
lan_addr = record { a0 = 10; a1 = 0; a2 = 0; a3 = 254 }

abbrev pub gateway_addr : Ipv4Addr
gateway_addr = record { a0 = 172; a1 = 16; a2 = 0; a3 = 254 }

abbrev pub router_mac : MacAddr
router_mac = record { m0 = 2; m1 = 0; m2 = 0; m3 = 0; m4 = 0; m5 = 9 }

abbrev pub answers : Answers
answers = record {
  nat = all_granted;
  arp_cell = true;
  arp_slot = true;
  mapping_cell = true;
  mapping_slot = true;
}

abbrev pub host_entry : ArpCache
host_entry = record { ip_addr = 167772161; mac_addr = mac_a; exp_time = 300 }

abbrev pub gateway_entry : ArpCache
gateway_entry = record { ip_addr = 2886729982; mac_addr = mac_b; exp_time = 300 }

abbrev pub lan0 : Interface
lan0 = record {
  base = record {
    ip_addr = lan_addr;
    nat_enable = false;
    udp_service_map = λ port. false;
    tcp_service_map = λ port. false;
  };
  mac_addr = router_mac;
  gateway = gateway_addr;
  has_gateway = false;
  dhcp_server_enable = false;
  ipv6_passthrough_peer = none;
  lo_chan = [];
  arp_cache_table = (167772161, host_entry) ∷ [];
  nat = empty_nat;
}

abbrev pub wan0 : Interface
wan0 = record {
  base = record {
    ip_addr = router_addr;
    nat_enable = true;
    udp_service_map = λ port. false;
    tcp_service_map = λ port. false;
  };
  mac_addr = router_mac;
  gateway = gateway_addr;
  has_gateway = true;
  dhcp_server_enable = false;
  ipv6_passthrough_peer = none;
  lo_chan = [];
  arp_cache_table = (2886729982, gateway_entry) ∷ [];
  nat = empty_nat;
}

abbrev host_mask : Ipv4Addr
host_mask = record { a0 = 255; a1 = 255; a2 = 255; a3 = 255 }

abbrev lan_route : RouteEntry
lan_route = record {
  dst_ip_addr = lan_host;
  network_mask = host_mask;
  next_hop = lan_host;
  has_next_hop = false;
  net_if = "lan0";
}

abbrev wan_route : RouteEntry
wan_route = record {
  dst_ip_addr = wan_host;
  network_mask = host_mask;
  next_hop = gateway_addr;
  has_next_hop = true;
  net_if = "wan0";
}

abbrev pub routes : TrieNode
routes = add_route (add_route root lan_route) wan_route

abbrev pub router : Router
router = record {
  net_if_map = ("lan0", lan0) ∷ ("wan0", wan0) ∷ [];
  route_table = routes;
  nat_port_mapping_flow_table = [];
  ipv4_pkt_fwd_hook = none;
  time_now = 5;
  iph_id = 7;
  check_sum_enable = true;
  fnv = λ ip. 0;
  sent = [];
  calls = [];
}

-- What the host asks, and what the remote answers.
abbrev pub query : UdpPkt
query = record { payload = three; src_port = 1000; dst_port = 53 }

abbrev pub response : UdpPkt
response = record { payload = three; src_port = 53; dst_port = 32768 }

pub query-IsUdpPkt : IsUdpPkt query
query-IsUdpPkt = record {
  src = omega arith;
  dst = omega arith;
  short = omega arith;
  bytes = three-IsByte;
}

pub response-IsUdpPkt : IsUdpPkt response
response-IsUdpPkt = record {
  src = omega arith;
  dst = omega arith;
  short = omega arith;
  bytes = three-IsByte;
}

pub router_addr-IsIpv4Addr : IsIpv4Addr router_addr
router_addr-IsIpv4Addr = (omega arith, omega arith, omega arith, omega arith)

-- The flow of the query.
abbrev pub query_flow : NatFlow
query_flow =
    let nat = nat_view router wan0 in
    new_flow nat (flow_hash nat (ip_addr_to_u wan_host) 53 (ip_addr_to_u lan_host) 1000 17) 32768
