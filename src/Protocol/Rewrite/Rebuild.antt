-- ===== src/Protocol/Rewrite/Rebuild.antt =====
-- protocol/ipv4.go: NatChangeSrc and NatChangeDst against building a UDP datagram.
use halo.Base.{ℕ, Bool, ◌+◌, ◌-◌, List, ◌∷◌, ◌≡◌, ◌≤◌, refl, ap, ap₂, ◌∙◌, arith, length}
use halo.Base.{be16, true, false, u8, u16, shr, ltb-false}
use halo.Protocol.Utils.{Ipv4Addr, ip_bytes, get_check_sum}
use halo.Protocol.Ipv4.{Ipv4Pkt, Ipv4AddrPair, iph_proto_udp}
use halo.Protocol.Ipv4.Laws.{ipv4_bytes, header_bytes, header_sum}
use halo.Protocol.Udp.{UdpPkt, udp_sum_data}
use halo.Protocol.Udp.Laws.{udp_bytes, udp_header_bytes, udp_sum}
use halo.Protocol.Rewrite.{
  put16, re_calc_ipv4_check_sum, re_calc_udp_check_sum, transport_sum_data, nat_change_port,
  nat_change_src, nat_change_dst,
}

module _ (check : Bool) (id ttl : ℕ) where
  -- A UDP datagram inside an IPv4 packet in transit.
  abbrev pub datagram : Ipv4Addr → Ipv4Addr → UdpPkt → List ℕ
  datagram src dst p =
      let body : List ℕ = udp_bytes check p (record { src_addr = src; dst_addr = dst }) in
      ipv4_bytes check id ttl
        (record { payload = body; ip_head_proto = iph_proto_udp; src_addr = src; dst_addr = dst })
        body

transport_len_udp :
    (n len : ℕ)
    → n ≤ 1472
    → len ≡ u16 (n + 28)
    → let x : ℕ = be16 (u8 (shr len 8)) (u8 len) + 65536 - 20 in
      (u8 (shr x 8) ≡ u8 (shr (u16 (n + 8)) 8)) × (u8 x ≡ u8 (u16 (n + 8)))
transport_len_udp n len h e = omega arith

-- The header checksum is recomputed from the header alone, whatever it was.
pub re_calc_ipv4-header :
    (check : Bool) (len id ttl c0 c1 : ℕ) (q : Ipv4Pkt) (rest : List ℕ)
    → re_calc_ipv4_check_sum check (header_bytes len id ttl c0 c1 q rest) ≡ (
        let sum : ℕ = header_sum check len id ttl q in
        header_bytes len id ttl (u8 (shr sum 8)) (u8 sum) q rest)
unfolding re_calc_ipv4_check_sum
re_calc_ipv4-header true len id ttl c0 c1 q rest =
    rw (ltb-false (length (header_bytes len id ttl c0 c1 q rest)) 20 (omega arith)) refl
re_calc_ipv4-header false len id ttl c0 c1 q rest =
    rw (ltb-false (length (header_bytes len id ttl c0 c1 q rest)) 20 (omega arith)) refl

module _ (len id ttl h0 h1 : ℕ) (q : Ipv4Pkt) (p : UdpPkt) where
  abbrev around : ℕ → ℕ → List ℕ
  around c0 c1 = header_bytes len id ttl h0 h1 q (udp_header_bytes c0 c1 p)

  abbrev ends : Ipv4AddrPair
  ends = record { src_addr = q.src_addr; dst_addr = q.dst_addr }

  module _ (h : length p.payload ≤ 1472) (e : len ≡ u16 (length p.payload + 28)) where
    sum_data_udp :
        transport_sum_data 0x11 (around 0 0)
        ≡ udp_sum_data ends (u16 (length p.payload + 8)) (udp_header_bytes 0 0 p)
    sum_data_udp =
        let (hi, lo) = transport_len_udp (length p.payload) len h e in
        ap₂
          (λ a b.
            ip_bytes q.src_addr
              (ip_bytes q.dst_addr (0x00 ∷ 0x11 ∷ a ∷ b ∷ udp_header_bytes 0 0 p)))
          hi lo

    -- The UDP checksum is recomputed from the addresses and the datagram, whatever it was.
    pub re_calc_udp-around :
        (check : Bool) (c0 c1 : ℕ)
        → re_calc_udp_check_sum check (around c0 c1)
          ≡ (let sum : ℕ = udp_sum check p ends in around (u8 (shr sum 8)) (u8 sum))
    unfolding re_calc_udp_check_sum
    re_calc_udp-around true c0 c1 =
        rw (ltb-false (length (around c0 c1)) 28 (omega arith))
          (ap (λ s. put16 (around 0 0) 26 (get_check_sum s)) sum_data_udp)
    re_calc_udp-around false c0 c1 = rw (ltb-false (length (around c0 c1)) 28 (omega arith)) refl

module _ (check : Bool) (id ttl : ℕ) (src dst new : Ipv4Addr) (p : UdpPkt) (port : ℕ) where
  -- The packet that `datagram` puts around a body of the length of `p`.
  abbrev carrier : Ipv4Addr → Ipv4Addr → Ipv4Pkt
  carrier s d = record {
    payload = udp_bytes check p (record { src_addr = src; dst_addr = dst });
    ip_head_proto = iph_proto_udp;
    src_addr = s;
    dst_addr = d;
  }

  abbrev total : ℕ
  total = u16 (length (carrier src dst).payload + 20)

  abbrev old_sum : ℕ
  old_sum = header_sum check total id ttl (carrier src dst)

  abbrev new_sum : Ipv4Addr → Ipv4Addr → ℕ
  new_sum s d = header_sum check total id ttl (carrier s d)

  abbrev udp_old : ℕ
  udp_old = udp_sum check p (record { src_addr = src; dst_addr = dst })

  module _ (h : length p.payload ≤ 1472) where
    -- Rewriting the source of a UDP datagram of at most 1472 payload bytes gives the datagram that is built from the new
    -- source address and port: both checksums are right for it, and nothing else changes.
    pub nat_change_src-datagram :
        nat_change_src check (datagram check id ttl src dst p) new port
        ≡ datagram check id ttl new dst (record p { src_port = port })
    unfolding nat_change_src nat_change_port
    nat_change_src-datagram =
        rw (ltb-false (length (datagram check id ttl src dst p)) 26 (omega arith)) (
          ap (λ l. nat_change_port check l 20 port)
            (re_calc_ipv4-header check total id ttl (u8 (shr old_sum 8)) (u8 old_sum)
              (carrier new dst) (carrier src dst).payload)
          ∙ re_calc_udp-around total id ttl (u8 (shr (new_sum new dst) 8)) (u8 (new_sum new dst))
              (carrier new dst) (record p { src_port = port }) h (omega arith) check
              (u8 (shr udp_old 8)) (u8 udp_old))

    -- Rewriting the destination of a UDP datagram of at most 1472 payload bytes gives the datagram
    -- that is built for the new destination address and port: both checksums are right for it, and
    -- nothing else changes.
    pub nat_change_dst-datagram :
        nat_change_dst check (datagram check id ttl src dst p) new port
        ≡ datagram check id ttl src new (record p { dst_port = port })
    unfolding nat_change_dst nat_change_port
    nat_change_dst-datagram =
        rw (ltb-false (length (datagram check id ttl src dst p)) 26 (omega arith)) (
          ap (λ l. nat_change_port check l 22 port)
            (re_calc_ipv4-header check total id ttl (u8 (shr old_sum 8)) (u8 old_sum)
              (carrier src new) (carrier src dst).payload)
          ∙ re_calc_udp-around total id ttl (u8 (shr (new_sum src new) 8)) (u8 (new_sum src new))
              (carrier src new) (record p { dst_port = port }) h (omega arith) check
              (u8 (shr udp_old 8)) (u8 udp_old))
