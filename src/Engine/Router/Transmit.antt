-- ===== src/Engine/Router/Transmit.antt =====
-- engine/ipv4_engine.go: TxIpv4; engine/icmp_engine.go, udp_engine.go, tcp_engine.go: what is sent
-- through it.
use Prim.Native.String.{String}
use text.Mathlib.Text.{◌==◌ as str_eq}
use halo.Base.{
  ℕ, Bool, zero, suc, true, false, List, [], ◌∷◌, ◌++◌, Option, none, some, ltb, length, ◌==◌, ◌+◌,
  if◌then◌else◌, u16,
}
use halo.Base.{ok, err, Result, Parsed}
use halo.Protocol.Utils.{Ipv4Addr, ip_addr_to_u, u_to_ip_addr}
use halo.Protocol.Ethernet.{eth_proto_ipv4}
use halo.Protocol.Ipv4.{
  Ipv4Pkt, Ipv4Error, build_ipv4_pkt, iph_proto_icmp, iph_proto_udp, iph_proto_tcp,
}
use halo.Protocol.Icmp.{build_icmp_pkt, icmp_request}
use halo.Protocol.Udp.{build_udp_pkt}
use halo.Protocol.Tcp.{TcpPkt, TcpError, parse_tcp_pkt}
use halo.Engine.Route.{ip_eq}
use halo.Engine.Receive.{broadcast_ipv4_addr}
use halo.Engine.Router.{M, ◌>>=◌, ◌>>◌, pure, gets, net_if, put_if, route_to, ArpCache}
use halo.Engine.Router.Link.{tx_ethernet, broadcast_mac_addr}
use halo.Engine.Router.Arp.{get_arp_cache}

-- BuildIpv4Pkt, with the process-wide identifier.
abbrev pub build_packet : Ipv4Pkt → M (Result Ipv4Error (List ℕ))
build_packet p r =
    let (result, id) = build_ipv4_pkt r.check_sum_enable r.iph_id [] p in
    some (result, record r { iph_id = id })

-- The select on LoChan: a full channel takes nothing.
unfoldable pub loop_back : String → List ℕ → M Bool
loop_back name pkt = do
  i ← net_if name
  if ltb (length i.lo_chan) 1024
      then (do put_if name (record i { lo_chan = i.lo_chan ++ (pkt ∷ []) }); pure true)
      else pure false

abbrev pub tx_resolved : String → List ℕ → Option ArpCache → M Bool
tx_resolved name pkt none = pure false
tx_resolved name pkt (some c) = tx_ethernet name pkt c.mac_addr eth_proto_ipv4

-- From the route on, for an address that is not the broadcast one.
unfoldable pub tx_routed : Ipv4Addr → List ℕ → M Bool
unfolding loop_back get_arp_cache tx_ethernet
tx_routed dst pkt = do
  (hop, out, has_hop) ← route_to dst
  if str_eq out "" then pure false else (do
    o ← net_if out
    if ip_addr_to_u dst == ip_addr_to_u o.base.ip_addr
        then loop_back out pkt
        else (do c ← get_arp_cache out (if has_hop then hop else dst); tx_resolved out pkt c))

abbrev pub tx_built : String → Ipv4Addr → Result Ipv4Error (List ℕ) → M Bool
tx_built name dst (err e) = pure false
tx_built name dst (ok pkt) =
    if ip_eq dst broadcast_ipv4_addr
    then tx_ethernet name pkt broadcast_mac_addr eth_proto_ipv4
    else tx_routed dst pkt

unfoldable pub tx_ipv4 : String → List ℕ → ℕ → Ipv4Addr → M Bool
unfolding tx_ethernet tx_routed
tx_ipv4 name payload proto dst = do
  i ← net_if name
  built ← build_packet (record {
    payload = payload;
    ip_head_proto = proto;
    src_addr = i.base.ip_addr;
    dst_addr = dst;
  })
  tx_built name dst built

-- The payload of the layer above; what it could not build is logged.
abbrev pub tx_payload {ℓ} : {E : Type ℓ} → String → ℕ → Ipv4Addr → Result E (List ℕ) → M Bool
tx_payload name proto dst (err e) = pure false
tx_payload name proto dst (ok pkt) = tx_ipv4 name pkt proto dst

unfoldable pub tx_icmp : String → List ℕ → ℕ → List ℕ → ℕ → Ipv4Addr → M Bool
unfolding tx_ipv4
tx_icmp name payload type id seq dst = tx_payload name iph_proto_icmp dst (
    build_icmp_pkt []
      (record { payload = payload; icmp_type = type; icmp_id = id; icmp_seq = seq }))

unfoldable pub tx_udp : String → List ℕ → ℕ → ℕ → Ipv4Addr → M Bool
unfolding tx_ipv4
tx_udp name payload src_port dst_port dst = do
  i ← net_if name
  check ← gets (λ r. r.check_sum_enable)
  tx_payload name iph_proto_udp dst (
      build_udp_pkt check []
        (record { payload = payload; src_port = src_port; dst_port = dst_port })
        (record { src_addr = i.base.ip_addr; dst_addr = dst }))

-- SendUdp, with the two fields of the session.
unfoldable pub send_udp : String → ℕ → ℕ → ℕ → List ℕ → M (Unit {0})
unfolding tx_udp
send_udp name port remote_ip remote_port payload = do
  done ← tx_udp name payload port remote_port (u_to_ip_addr remote_ip)
  pure tt

abbrev pub send_segment : String → Ipv4Addr → List ℕ → Parsed TcpError TcpPkt → M Bool
send_segment name remote packet (err e) = pure false
send_segment name remote packet (ok tcp) = tx_ipv4 name packet iph_proto_tcp remote

unfoldable pub send_tcp : String → Ipv4Addr → List ℕ → M Bool
unfolding tx_ipv4
send_tcp name remote packet = do
  i ← net_if name
  check ← gets (λ r. r.check_sum_enable)
  send_segment name remote packet
      (parse_tcp_pkt check packet (record { src_addr = i.base.ip_addr; dst_addr = remote }))

abbrev pub icmp_default_payload : List ℕ
icmp_default_payload =
    0x61 ∷ 0x62 ∷ 0x63 ∷ 0x64 ∷ 0x65 ∷ 0x66 ∷ 0x67 ∷ 0x68 ∷ 0x69 ∷ 0x6a ∷ 0x6b ∷ 0x6c ∷ 0x6d ∷ 0x6e
    ∷ 0x6f ∷ 0x70 ∷ 0x71 ∷ 0x72 ∷ 0x73 ∷ 0x74 ∷ 0x75 ∷ 0x76 ∷ 0x77 ∷ 0x61 ∷ 0x62 ∷ 0x63 ∷ 0x64
    ∷ 0x65 ∷ 0x66 ∷ 0x67 ∷ 0x68 ∷ 0x69 ∷ []

-- The loop of Ping, one round for each tick, with the random identifier `id`.
unfoldable pub ping_rounds : String → Ipv4Addr → List ℕ → ℕ → ℕ → M (Unit {0})
unfolding tx_icmp
ping_rounds name dst id zero seq = pure tt
ping_rounds name dst id (suc count) seq = do
  done ← tx_icmp name icmp_default_payload icmp_request id (u16 (seq + 1)) dst
  ping_rounds name dst id count (u16 (seq + 1))

unfoldable pub ping : String → Ipv4Addr → List ℕ → ℕ → M (Unit {0})
unfolding ping_rounds
ping name dst id count = ping_rounds name dst id count 0
