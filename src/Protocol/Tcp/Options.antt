-- ===== src/Protocol/Tcp/Options.antt =====
-- protocol/tcp.go: the option loop of ParseTcpPkt and its fuel.
use halo.Base.{ℕ, Bool, zero, suc, ◌+◌, ◌≢◌, ◌≤◌, ◌<◌, List, arith, at}
use halo.Base.{err}
use halo.Protocol.Tcp.{out_of_fuel, read_tcp_options, next_mss}
use halo.Protocol.Ipv4.{Ipv4AddrPair}
use halo.Protocol.Tcp.{parse_tcp_pkt, TcpPkt, has_syn}
use halo.Base.{◌/◌, ◌*◌}

-- Each round moves at least one byte on and stays within the header, so a fuel above what is left
-- never runs out.
pub read_tcp_options-ne-out_of_fuel :
    (fuel : ℕ) (pkt : List ℕ) (header_len : ℕ) (syn : Bool) (offset mss : ℕ)
    → offset ≤ header_len
    → header_len < offset + fuel
    → read_tcp_options fuel pkt header_len syn offset mss ≢ err out_of_fuel
unfolding read_tcp_options
read_tcp_options-ne-out_of_fuel zero pkt header_len syn offset mss b h = absurd (omega arith)
read_tcp_options-ne-out_of_fuel (suc fuel) pkt header_len syn offset mss b h = ground (
  arith,
  read_tcp_options-ne-out_of_fuel fuel pkt header_len syn (offset + 1) mss,
  read_tcp_options-ne-out_of_fuel fuel pkt header_len syn (offset + at pkt (offset + 1))
      (next_mss pkt syn offset mss),
)

-- No slice makes the parser run out of fuel: the loop over the options ends on every input.
pub parse_tcp-ne-out_of_fuel :
    (check : Bool) (pkt : List ℕ) (addr : Ipv4AddrPair) (p : TcpPkt)
    → parse_tcp_pkt check pkt addr ≢ err (p, out_of_fuel)
unfolding parse_tcp_pkt
parse_tcp-ne-out_of_fuel check pkt addr p =
    let n : ℕ = at pkt 12 / 16 * 4 in
    ground (arith, read_tcp_options-ne-out_of_fuel n pkt n (has_syn (at pkt 13)) 20 0)
