-- ===== src/Protocol/Delivery.antt =====
-- protocol/udp.go inside protocol/ipv4.go inside protocol/ethernet.go: a UDP payload through the
-- three layers.
use halo.Base.{
  ℕ, Bool, ◌+◌, ◌-◌, ◌++◌, ◌≡◌, ◌≤◌, refl, arith, List, [], length, replicate, length-replicate,
}
use halo.Base.{ok, u32}
use halo.Protocol.Utils.{MacAddr}
use halo.Protocol.Ethernet.{EthFrm, parse_eth_frm, build_eth_frm, eth_proto_ipv4}
use halo.Protocol.Ethernet.Laws.{padded, parse-build_eth}
use halo.Protocol.Ipv4.{Ipv4Pkt, Ipv4AddrPair, parse_ipv4_pkt, build_ipv4_pkt, iph_proto_udp}
use halo.Protocol.Ipv4.Laws.{IsIpv4Addr, parse-build_ipv4}
use halo.Protocol.Udp.{UdpPkt, parse_udp_pkt, build_udp_pkt}
use halo.Protocol.Udp.Laws.{IsUdpPkt, parse-build_udp}
use halo.Base.{ap}
use halo.Base.{◌∙◌}

module _ (check : Bool) (iph_id : ℕ) (src_mac dst_mac : MacAddr) (addr : Ipv4AddrPair) (p : UdpPkt)
    (v : IsUdpPkt p) (s : IsIpv4Addr addr.src_addr) (d : IsIpv4Addr addr.dst_addr) where
  -- Between two addresses, a frame that carries a datagram whose fields are in the ranges of their
  -- types, with at most 1472 payload bytes, in an IPv4 packet of the next identifier is built, and
  -- whoever parses it layer by layer gets the addresses and the datagram back, the zeros that
  -- fill a short frame cut off.
  pub udp_delivered :
      (udp : List ℕ) × (ip : List ℕ) × (frm : List ℕ) × (frame : EthFrm) × (packet : Ipv4Pkt)
      × (build_udp_pkt check [] p addr ≡ ok udp)
      × (build_ipv4_pkt check iph_id [] (record {
        payload = udp;
        ip_head_proto = iph_proto_udp;
        src_addr = addr.src_addr;
        dst_addr = addr.dst_addr;
      })
          ≡ (ok ip, u32 (iph_id + 1)))
      × (build_eth_frm [] (record {
        payload = ip;
        dst_mac = dst_mac;
        src_mac = src_mac;
        eth_proto = eth_proto_ipv4;
      })
          ≡ ok frm)
      × (parse_eth_frm frm ≡ ok frame)
      × (frame.dst_mac ≡ dst_mac)
      × (parse_ipv4_pkt check frame.payload ≡ ok packet)
      × (packet.src_addr ≡ addr.src_addr)
      × (packet.dst_addr ≡ addr.dst_addr)
      × (parse_udp_pkt check packet.payload addr ≡ ok p)
  udp_delivered =
      let (udp, built_udp, len_udp, read_udp) = parse-build_udp check p addr v s d in
      let q : Ipv4Pkt = record {
        payload = udp;
        ip_head_proto = iph_proto_udp;
        src_addr = addr.src_addr;
        dst_addr = addr.dst_addr;
      } in
      let zeros : List ℕ = replicate (46 - (length udp + 20)) 0x00 in
      let room : length udp + length zeros ≤ 1480 =
        omega (arith, v.short, length-replicate {A = ℕ} (46 - (length udp + 20)) 0x00) in
      let (ip, built_ip, len_ip, read_ip) =
        parse-build_ipv4 check iph_id q zeros
          (record { known = refl; src = s; dst = d; short = omega (arith, v.short) }) room in
      let f : EthFrm = record {
        payload = ip;
        dst_mac = dst_mac;
        src_mac = src_mac;
        eth_proto = eth_proto_ipv4;
      } in
      let (frm, built_frm, lo, hi, read_frm) = parse-build_eth f refl (omega (arith, v.short)) in
      (
        udp,
        ip,
        frm,
        padded f,
        q,
        built_udp,
        built_ip,
        built_frm,
        read_frm,
        refl,
        ap (λ n. parse_ipv4_pkt check (ip ++ replicate (46 - n) 0x00)) len_ip ∙ read_ip,
        refl,
        refl,
        read_udp,
      )
