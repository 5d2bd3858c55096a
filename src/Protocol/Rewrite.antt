-- ===== src/Protocol/Rewrite.antt =====
-- protocol/ipv4.go: packets that are changed in place while they are forwarded. CheckSumEnable
-- is the argument `check`.
pub mod Seals
pub mod Rebuild
use halo.Base.{
  ℕ, Bool, ◌-◌, ◌+◌, ◌^◌, ◌++◌, List, [], ◌∷◌, true, false, ltb, leb, ◌==◌, not, if◌then◌else◌,
  length, at, take, drop, slice, set, be16, bytes16, u8, shr,
}
use halo.Protocol.Utils.{Ipv4Addr, get_check_sum}
use halo.Protocol.Ipv4.{iph_proto_icmp, iph_proto_tcp, iph_proto_udp}

-- `pkt[i] = byte(x >> 8); pkt[i+1] = byte(x)`
abbrev pub put16 : List ℕ → ℕ → ℕ → List ℕ
put16 pkt i x = set (set pkt i (u8 (shr x 8))) (i + 1) (u8 x)

-- Four bytes of an address, one after the other.
abbrev pub put_ip : List ℕ → ℕ → Ipv4Addr → List ℕ
put_ip pkt i a = set (set (set (set pkt i a.a0) (i + 1) a.a1) (i + 2) a.a2) (i + 3) a.a3

unfoldable pub re_calc_ipv4_check_sum : Bool → List ℕ → List ℕ
re_calc_ipv4_check_sum check pkt =
    if ltb (length pkt) 20
    then pkt
    else let zeroed = set (set pkt 10 0x00) 11 0x00 in
      if not check then zeroed else put16 zeroed 10 (get_check_sum (take 20 zeroed))

-- A slice that is too short gives nil, here the empty list, and is not alive.
unfoldable pub handle_ipv4_pkt_ttl : Bool → List ℕ → List ℕ × Bool
unfolding re_calc_ipv4_check_sum
handle_ipv4_pkt_ttl check pkt =
    if ltb (length pkt) 9
    then ([], false)
    else if leb (at pkt 8) 1
    then (pkt, false)
    else (re_calc_ipv4_check_sum check (set pkt 8 (at pkt 8 - 0x01)), true)

unfoldable pub re_calc_icmp_check_sum : List ℕ → List ℕ
re_calc_icmp_check_sum pkt =
    if ltb (length pkt) 24
    then pkt
    else let zeroed = set (set pkt 22 0x00) 23 0x00 in
      put16 zeroed 22 (get_check_sum (drop 20 zeroed))

-- `byte((totalLen-20)>>8), byte(totalLen-20)` of an int: the two low bytes are those of the
-- difference modulo 2 ^ 16, also where it is negative.
abbrev pub transport_len : List ℕ → ℕ
transport_len pkt = be16 (at pkt 2) (at pkt 3) + 65536 - 20

-- `sumData` of the TCP and UDP recalculation: the pseudo header out of the IPv4 header, and all
-- that follows that header.
abbrev pub transport_sum_data : ℕ → List ℕ → List ℕ
transport_sum_data proto pkt =
    slice 12 16 pkt
    ++ (slice 16 20 pkt ++ (0x00 ∷ proto ∷ bytes16 (transport_len pkt) (drop 20 pkt)))

unfoldable pub re_calc_tcp_check_sum : Bool → List ℕ → List ℕ
re_calc_tcp_check_sum check pkt =
    if ltb (length pkt) 38
    then pkt
    else let zeroed = set (set pkt 36 0x00) 37 0x00 in
      if not check then zeroed else put16 zeroed 36 (get_check_sum (transport_sum_data 0x06 zeroed))

unfoldable pub re_calc_udp_check_sum : Bool → List ℕ → List ℕ
re_calc_udp_check_sum check pkt =
    if ltb (length pkt) 28
    then pkt
    else let zeroed = set (set pkt 26 0x00) 27 0x00 in
      if not check then zeroed else put16 zeroed 26 (get_check_sum (transport_sum_data 0x11 zeroed))

-- The source and destination port; ICMP gives its identifier twice.
unfoldable pub nat_get_src_dst_port : List ℕ → ℕ × ℕ
nat_get_src_dst_port pkt =
    if ltb (length pkt) 26
    then (0, 0)
    else if at pkt 9 == iph_proto_icmp
    then (be16 (at pkt 24) (at pkt 25), be16 (at pkt 24) (at pkt 25))
    else if at pkt 9 == iph_proto_tcp
    then (be16 (at pkt 20) (at pkt 21), be16 (at pkt 22) (at pkt 23))
    else if at pkt 9 == iph_proto_udp
    then (be16 (at pkt 20) (at pkt 21), be16 (at pkt 22) (at pkt 23))
    else (0, 0)

-- The switch of NatChangeSrc and NatChangeDst: `offset` is 20 for the source port and 22 for the
-- destination port.
unfoldable pub nat_change_port : Bool → List ℕ → ℕ → ℕ → List ℕ
unfolding re_calc_icmp_check_sum re_calc_tcp_check_sum re_calc_udp_check_sum
nat_change_port check pkt offset port =
    if at pkt 9 == iph_proto_icmp
    then re_calc_icmp_check_sum (put16 pkt 24 port)
    else if at pkt 9 == iph_proto_tcp
    then re_calc_tcp_check_sum check (put16 pkt offset port)
    else if at pkt 9 == iph_proto_udp
    then re_calc_udp_check_sum check (put16 pkt offset port)
    else pkt

unfoldable pub nat_change_src : Bool → List ℕ → Ipv4Addr → ℕ → List ℕ
unfolding re_calc_ipv4_check_sum nat_change_port
nat_change_src check pkt ip_addr port =
    if ltb (length pkt) 26
    then pkt
    else nat_change_port check (re_calc_ipv4_check_sum check (put_ip pkt 12 ip_addr)) 20 port

unfoldable pub nat_change_dst : Bool → List ℕ → Ipv4Addr → ℕ → List ℕ
unfolding re_calc_ipv4_check_sum nat_change_port
nat_change_dst check pkt ip_addr port =
    if ltb (length pkt) 26
    then pkt
    else nat_change_port check (re_calc_ipv4_check_sum check (put_ip pkt 16 ip_addr)) 22 port
